-- ===== src/Netfin/Walk.antt =====
-- The walks: `Reconcile`, the callback that it shares with `SyncTree`, and the walk over the backup
-- that removes what was not seen (netfin/internal/filesync/sync.go). What WalkDir meets is an
-- argument; `cancelled` tells at which path the context is found done.
pub mod Visits
pub mod Listing
pub mod States
pub mod Recorded
pub mod Prune
pub mod Deep
pub mod Dry
use dockerset.Base.{
  ℕ, Bool, true, false, not, ◌&&◌, List, [], ◌∷◌, ◌++◌, Option, none, some, ◌===◌, if◌then◌else◌,
  Bytes, any,
}
use dockerset.Go.Maps.{Map, get, put, delete_if}
use dockerset.Go.Path.{clean, dot}
use dockerset.Go.Walk.{
  Entry, leaf, folder, Entries, unread, end, entry, WalkStep, go_on, skip_dir, stop, walk, walk_all,
}
use dockerset.Netfin.Excluder.{Excluder, excluded}
use dockerset.Netfin.Disk.{
  Node, dir_node, file_node, SyncError, path_escapes, lstat_failed, disk_failed, walk_cancelled,
  directory_unread, FileKind, directory, regular, symlink, other, FileInfo, Lstat, missing,
  unreadable, found, Source, in_tree,
}
use dockerset.Netfin.Filesync.{
  Syncer, World, sync_dir, copy_rel, sync_rel, remove_backup_path, remove_known_backup_path,
  forget_state_tree, has_symlink_in_path, escapes,
}
use dockerset.Netfin.Reconcile.{remove_deleted_from_state_under, remove_deleted_from_state, is_seen}
use dockerset.Netfin.Pending.{PendingEntry, collapse_pending}

-- What a walk changes: the syncer with the backup, and `seen`.
pub record Scan : Type 0 where
  pub world : World
  pub seen : List Bytes

-- What a directory entry gives: `none` is an error of `entry.Info()`.
abbrev pub Info : Type 0
Info = Option FileInfo

abbrev pub settle : List Bytes → Option SyncError × World → WalkStep SyncError × Scan
settle seen (none, w) = (go_on, record { world = w; seen = seen })
settle seen (some e, w) = (stop e, record { world = w; seen = seen })

abbrev pub skip_if_dir : Bool → WalkStep SyncError
skip_if_dir true = skip_dir
skip_if_dir false = go_on

-- What the callback does at an entry that it visits; `special` is for what is neither a directory
-- nor a regular file.
unfoldable pub visit_result :
    (Bytes → World → Option SyncError × World)
    → Syncer
    → Source
    → Bytes
    → Bool
    → FileInfo
    → World
    → Option SyncError × World
visit_result special s src rel true info w = sync_dir s src rel info w
visit_result special s src rel false info w = elim info.kind [
  | regular ↦ copy_rel s src rel info w
  | _ ↦ special rel w
]

-- The end of the callback, from `seen[rel]` on
unfoldable pub visit_kind :
    (Bytes → World → Option SyncError × World)
    → Syncer
    → Source
    → Bytes
    → Bool
    → FileInfo
    → Scan
    → WalkStep SyncError × Scan
unfolding visit_result
visit_kind special s src rel is_dir info sc =
    settle (rel ∷ sc.seen) (visit_result special s src rel is_dir info sc.world)

abbrev pub is_symlink : FileInfo → Bool
is_symlink info = elim info.kind [ symlink ↦ true | _ ↦ false ]

-- What the callback does with an entry that is not excluded
abbrev pub visit_info :
    (Bytes → World → Option SyncError × World)
    → Syncer
    → Source
    → Bytes
    → Bool
    → Info
    → Scan
    → WalkStep SyncError × Scan
visit_info special s src path is_dir none sc = (stop lstat_failed, sc)
visit_info special s src path is_dir (some i) sc =
    if is_symlink i
    then (skip_if_dir is_dir, sc)
    else visit_kind special s src (clean path) is_dir i sc

-- The callback of both walks
unfoldable pub visit :
    (Bytes → World → Option SyncError × World)
    → (Bytes → Bool)
    → Syncer
    → Source
    → Bytes
    → Bool
    → Info
    → Scan
    → WalkStep SyncError × Scan
unfolding visit_kind
visit special cancelled s src path is_dir info sc =
    if cancelled path
    then (stop walk_cancelled, sc)
    else if path === dot
    then (go_on, sc)
    else if excluded s.excluder path
    then (skip_if_dir is_dir, sc)
    else visit_info special s src path is_dir info sc

-- `Reconcile` passes other kinds over, `SyncTree` removes their backup.
abbrev pub pass_over : Bytes → World → Option SyncError × World
pass_over rel w = (none, w)

-- The walk of `Reconcile`; `none` is an error of Lstat at the root.
unfoldable pub walk_source :
    (Bytes → Bool) → Syncer → Source → Option (Entries Info) → World → Option SyncError × Scan
unfolding walk_all visit
walk_source cancelled s src none w = (some lstat_failed, record { world = w; seen = [] })
walk_source cancelled s src (some es) w =
    if cancelled dot
    then (some walk_cancelled, record { world = w; seen = [] })
    else walk_all (visit pass_over cancelled s src) directory_unread dot es
        (record { world = w; seen = [] })

unfoldable pub forget_state : Syncer → Bytes → World → World
unfolding clean ◌===◌
forget_state s rel w =
    if s.dry_run then w else record w { state = delete_if (λ p. clean rel === p) w.state }

-- `os.RemoveAll` of a directory or `os.Remove` of a file, and the state with it
unfoldable pub remove_unseen : Syncer → Bytes → Node → World → World
unfolding forget_state forget_state_tree in_tree ◌===◌
remove_unseen s rel (dir_node m) w =
    forget_state_tree s rel (record w { disk = delete_if (in_tree rel) w.disk })
remove_unseen s rel (file_node m t c) w =
    forget_state s rel (record w { disk = delete_if (λ p. rel === p) w.disk })

-- One call of the callback of the walk over the backup, by what stands at the path, and what follows.
-- A path under a directory that was removed is not met any more.
abbrev pub prune_at :
    Syncer
    → Source
    → List Bytes
    → Bytes
    → World
    → (World → Option SyncError × World)
    → Option Node
    → Option SyncError × World
prune_at s src seen path w next none = next w
prune_at s src seen path w next (some node) =
    if path === dot
    then next w
    else if is_seen seen (clean path)
    then next w
    else if src.fails path
    then (some disk_failed, w)
    else next (remove_unseen s (clean path) node w)

-- The walk over the backup, at the paths in the order in which WalkDir meets them
unfoldable pub prune_from :
    Syncer → Source → List Bytes → List Bytes → World → Option SyncError × World
unfolding remove_unseen
prune_from s src seen [] w = (none, w)
prune_from s src seen (path ∷ paths) w =
    prune_at s src seen path w (λ w1. prune_from s src seen paths w1) (get path w.disk)

unfoldable pub remove_deleted_by_walking_destination :
    Syncer → Source → List Bytes → List Bytes → World → Option SyncError × World
unfolding prune_from
remove_deleted_by_walking_destination s src listed seen w =
    if s.dry_run then (none, w) else prune_from s src seen listed w

-- What `Reconcile` has of the system: the tree of the source, and the paths of a backup in the
-- order of WalkDir.
pub record Walks : Type 0 where
  pub cancelled : Bytes → Bool
  pub root : Option (Entries Info)
  pub listed : Map Node → List Bytes

-- The removal at the end of `Reconcile`
unfoldable pub remove_unlisted : Walks → Syncer → Source → Bool → Scan → Option SyncError × World
unfolding remove_deleted_by_walking_destination remove_deleted_from_state
remove_unlisted ws s src reconciled sc =
    if reconciled
    then remove_deleted_from_state s src sc.seen sc.world
    else remove_deleted_by_walking_destination s src (ws.listed sc.world.disk) sc.seen sc.world

abbrev pub mark : Bool → Option SyncError × World → Option SyncError × World × Bool
mark reconciled (some e, w) = (some e, w, reconciled)
mark reconciled (none, w) = (none, w, true)

abbrev pub then_remove :
    Walks → Syncer → Source → Bool → Option SyncError × Scan → Option SyncError × World × Bool
then_remove ws s src reconciled (some e, sc) = (some e, sc.world, reconciled)
then_remove ws s src reconciled (none, sc) =
    mark reconciled (remove_unlisted ws s src reconciled sc)

-- `reconciled` is the field of the syncer; the walk is deep while it is false.
unfoldable pub reconcile : Walks → Syncer → Source → Bool → World → Option SyncError × World × Bool
unfolding walk_source remove_unlisted
reconcile ws s src reconciled w =
    then_remove ws s src reconciled (walk_source ws.cancelled s src ws.root w)
