-- ===== src/Netfin/Flush.antt =====
-- `SyncTree` and `flushPending` (netfin/internal/filesync/sync.go).
use dockerset.Base.{
  Bool, true, false, List, [], ◌∷◌, Option, none, some, ◌===◌, if◌then◌else◌, Bytes,
}
use dockerset.Go.Maps.{Map}
use dockerset.Go.Path.{clean, dot}
use dockerset.Go.Walk.{folder, Entries, walk}
use dockerset.Netfin.Excluder.{excluded}
use dockerset.Netfin.Disk.{
  SyncError, path_escapes, lstat_failed, directory_unread, directory, Lstat, missing, unreadable,
  found, Source,
}
use dockerset.Netfin.Filesync.{
  Syncer, World, sync_rel, remove_backup_path, remove_known_backup_path, has_symlink_in_path,
  escapes,
}
use dockerset.Netfin.Reconcile.{remove_deleted_from_state_under}
use dockerset.Netfin.Pending.{PendingEntry, collapse_pending}
use dockerset.Netfin.Walk.{Scan, Info, visit}

-- What WalkDir meets in the directory at a path: its own information and its entries; `none` is an
-- error of Lstat.
abbrev pub Trees : Type 0
Trees = Bytes → Option (Info × Entries Info)

abbrev pub then_sweep : Syncer → Source → Bytes → Option SyncError × Scan → Option SyncError × World
then_sweep s src rel (some e, sc) = (some e, sc.world)
then_sweep s src rel (none, sc) = remove_deleted_from_state_under s src rel sc.seen sc.world

-- The walk of `SyncTree`, and the removal behind it
unfoldable pub walk_tree :
    (Bytes → Bool) → Trees → Syncer → Source → Bytes → World → Option SyncError × World
unfolding walk visit remove_deleted_from_state_under
walk_tree cancelled trees s src rel w = elim (trees rel) [
  | none ↦ (some lstat_failed, w)
  | some (info, es) ↦ then_sweep s src rel (
      walk (visit (remove_backup_path s src) cancelled s src) directory_unread dot
        (folder rel info es) (record { world = w; seen = [] }))
]

abbrev pub tree_lstat :
    (Bytes → Bool) → Trees → Syncer → Source → Bytes → World → Lstat → Option SyncError × World
tree_lstat cancelled trees s src rel w missing = remove_known_backup_path s src rel w
tree_lstat cancelled trees s src rel w unreadable = (some lstat_failed, w)
tree_lstat cancelled trees s src rel w (found info) = elim info.kind [
  | directory ↦ walk_tree cancelled trees s src rel w
  | _ ↦ sync_rel s src rel w
]

unfoldable pub sync_tree :
    (Bytes → Bool) → Trees → Syncer → Source → Bytes → World → Option SyncError × World
unfolding walk_tree
sync_tree cancelled trees s src path w =
    let rel = clean path in
    if path === dot
    then (none, w)
    else if escapes rel
    then (some path_escapes, w)
    else if excluded s.excluder rel
    then remove_known_backup_path s src rel w
    else elim (has_symlink_in_path src rel) [
      | none ↦ (some lstat_failed, w)
      | some true ↦ remove_known_backup_path s src rel w
      | some false ↦ tree_lstat cancelled trees s src rel w (src.lstat rel)
    ]

-- One entry of the loop of `flushPending`; an error is logged.
abbrev pub flush_one : (Bytes → Bool) → Trees → Syncer → Source → PendingEntry → World → World
flush_one cancelled trees s src item w =
    if item.tree
    then (sync_tree cancelled trees s src item.rel w).1
    else (sync_rel s src item.rel w).1

unfoldable pub flush_from :
    (Bytes → Bool) → Trees → Syncer → Source → List PendingEntry → World → World
unfolding sync_tree sync_rel
flush_from cancelled trees s src [] w = w
flush_from cancelled trees s src (item ∷ items) w =
    let rest = flush_from cancelled trees s src items (flush_one cancelled trees s src item w) in
    if cancelled item.rel then w else rest

abbrev pub entries_of : Map Bool → List PendingEntry
entries_of [] = []
entries_of ((rel, tree) ∷ m) = record { rel = rel; tree = tree } ∷ entries_of m

-- The world and the entries that wait after it: none
unfoldable pub flush_pending :
    (Bytes → Bool) → Trees → Syncer → Source → Map Bool → World → World × Map Bool
unfolding flush_from collapse_pending
flush_pending cancelled trees s src pending w =
    (flush_from cancelled trees s src (collapse_pending (entries_of pending)) w, [])
