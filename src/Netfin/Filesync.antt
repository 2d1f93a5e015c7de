-- ===== src/Netfin/Filesync.antt =====
-- `Syncer` on one path (netfin/internal/filesync/sync.go, and `HasSymlinkInPath` and the test of
-- `JoinUnder` in netfin/internal/safeio/path.go). An error is an `Option`, and what was changed
-- before it stays.
pub mod Laws
pub mod Recorded
pub mod Mirror
pub mod Sync
use dockerset.Base.{
  ℕ, Bool, true, false, not, ◌&&◌, ◌||◌, List, [], ◌∷◌, ◌++◌, Option, none, some, ◌==◌, ◌===◌,
  if◌then◌else◌, Bytes, length, codes, any,
}
use dockerset.Go.Maps.{Map, get, put, delete_if, keys}
use dockerset.Go.Path.{clean, slash, dot, dot_dot, is_abs}
use dockerset.Go.Text.{has_prefix, split}
use dockerset.Netfin.Excluder.{Excluder, excluded}
use dockerset.Netfin.Disk.{
  Node, dir_node, file_node, SyncError, path_escapes, lstat_failed, disk_failed, not_a_directory,
  FileInfo, Source, Lstat, missing, unreadable, found, directory, regular, symlink, other, in_tree,
  mkdir_all, atomic_copy_file, remove_path,
}

pub data PathKind : Type 0 where
  path_kind_dir path_kind_file : PathKind

pub record PathState : Type 0 where
  pub kind : PathKind
  pub mode : ℕ
  pub size : ℕ
  pub mod_time : ℕ

pub record Syncer : Type 0 where
  pub excluder : Excluder
  pub dry_run : Bool

-- What a `Syncer` changes: its own state, and the backup.
pub record World : Type 0 where
  pub state : Map PathState
  pub disk : Map Node

unfoldable pub path_state_from_info : PathKind → FileInfo → PathState
path_state_from_info path_kind_dir info = record {
  kind = path_kind_dir;
  mode = info.mode;
  size = 0;
  mod_time = 0;
}
path_state_from_info path_kind_file info = record {
  kind = path_kind_file;
  mode = info.mode;
  size = info.size;
  mod_time = info.mod_time;
}

abbrev pub same_kind : PathKind → PathKind → Bool
same_kind path_kind_dir path_kind_dir = true
same_kind path_kind_file path_kind_file = true
same_kind _ _ = false

abbrev pub same_state : PathState → PathState → Bool
same_state a b =
    same_kind a.kind b.kind && a.mode == b.mode && a.size == b.size && a.mod_time == b.mod_time

-- No recorded state has the kind 0 of the value that a missing key gives.
unfoldable pub state_matches : Bytes → PathState → World → Bool
unfolding clean
state_matches rel st w = elim (get (clean rel) w.state) [
  | none ↦ false
  | some known ↦ same_state known st
]

unfoldable pub has_state_tree : Bytes → World → Bool
unfolding any in_tree
has_state_tree rel w = any (in_tree (clean rel)) (keys w.state)

unfoldable pub remember_state : Syncer → Bytes → PathState → World → World
remember_state s rel st w = if s.dry_run then w else record w { state = put (clean rel) st w.state }

unfoldable pub forget_state_tree : Syncer → Bytes → World → World
forget_state_tree s rel w =
    if s.dry_run then w else record w { state = delete_if (in_tree (clean rel)) w.state }

-- The test of `JoinUnder` on a cleaned path
unfoldable pub escapes : Bytes → Bool
unfolding has_prefix ◌===◌
escapes rel = rel === dot_dot || has_prefix rel (dot_dot ++ slash) || is_abs rel

unfoldable pub ensure_dir : Syncer → Source → Bytes → ℕ → World → Option SyncError × World
unfolding mkdir_all escapes
ensure_dir s src rel mode w =
    if escapes (clean rel)
    then (some path_escapes, w)
    else if s.dry_run
    then (none, w)
    else if src.fails (clean rel)
    then (some disk_failed, w)
    else elim (mkdir_all (clean rel) mode w.disk) [
      | none ↦ (some not_a_directory, w)
      | some disk ↦ (none, record w { disk = disk })
    ]

-- What follows a step that may fail: `if err != nil { return err }`.
abbrev pub then_remember :
    Syncer → Bytes → PathState → Option SyncError × World → Option SyncError × World
then_remember s rel st (some e, w) = (some e, w)
then_remember s rel st (none, w) = (none, remember_state s rel st w)

unfoldable pub sync_dir : Syncer → Source → Bytes → FileInfo → World → Option SyncError × World
unfolding ensure_dir state_matches remember_state
sync_dir s src rel info w =
    let st = path_state_from_info path_kind_dir info in
    if state_matches rel st w
    then (none, w)
    else then_remember s rel st (ensure_dir s src rel info.mode w)

-- A directory has a size and a time of its own, and is never taken for the file.
unfoldable pub file_metadata_matches : Bytes → FileInfo → Map Node → Bool
file_metadata_matches rel info disk = elim (get rel disk) [
  | some (file_node mode mod_time bytes) ↦
      mode == info.mode && length bytes == info.size && mod_time == info.mod_time
  | _ ↦ false
]

unfoldable pub copy_rel : Syncer → Source → Bytes → FileInfo → World → Option SyncError × World
unfolding atomic_copy_file file_metadata_matches state_matches remember_state escapes
copy_rel s src rel info w =
    let st = path_state_from_info path_kind_file info in
    if state_matches rel st w
    then (none, w)
    else if escapes (clean rel)
    then (some path_escapes, w)
    else if file_metadata_matches (clean rel) info w.disk
    then (none, remember_state s rel st w)
    else let (e, disk) =
        atomic_copy_file src (clean rel) info.mode info.mod_time s.dry_run w.disk in
      then_remember s rel st (e, record w { disk = disk })

abbrev pub then_forget :
    Syncer → Bytes → World → Option SyncError × Map Node → Option SyncError × World
then_forget s rel w (some e, disk) = (some e, record w { disk = disk })
then_forget s rel w (none, disk) = (none, forget_state_tree s rel (record w { disk = disk }))

-- The path that `JoinUnder` gives is cleaned again.
unfoldable pub remove_backup_path : Syncer → Source → Bytes → World → Option SyncError × World
unfolding remove_path forget_state_tree
remove_backup_path s src rel w = then_forget s rel w (remove_path src (clean rel) s.dry_run w.disk)

unfoldable pub remove_known_backup_path : Syncer → Source → Bytes → World → Option SyncError × World
unfolding has_state_tree remove_backup_path
remove_known_backup_path s src rel w =
    if not (has_state_tree rel w) then (none, w) else remove_backup_path s src rel w

-- The loop of `HasSymlinkInPath` over the elements; `none` is an error.
unfoldable pub symlink_from : Source → Bytes → List Bytes → Option Bool
symlink_from src cur [] = some false
symlink_from src cur (part ∷ parts) =
    let here = if length cur == 0 then part else cur ++ slash ++ part in
    let rest = symlink_from src here parts in
    elim (src.lstat here) [
      | missing ↦ some false
      | unreadable ↦ none
      | found info ↦ elim info.kind [ symlink ↦ some true | _ ↦ rest ]
    ]

unfoldable pub has_symlink_in_path : Source → Bytes → Option Bool
unfolding symlink_from
has_symlink_in_path src rel =
    if rel === dot then some false else symlink_from src [] (split rel b'/')

-- The end of `SyncRel`, by the kind of the source
unfoldable pub sync_found : Syncer → Source → Bytes → FileInfo → World → Option SyncError × World
unfolding sync_dir copy_rel remove_known_backup_path
sync_found s src rel info w = elim info.kind [
  | symlink ↦ remove_known_backup_path s src rel w
  | directory ↦ sync_dir s src rel info w
  | other ↦ remove_known_backup_path s src rel w
  | regular ↦ copy_rel s src rel info w
]

-- The end of `SyncRel`, by what `Lstat` returns
abbrev pub sync_lstat : Syncer → Source → Bytes → World → Lstat → Option SyncError × World
sync_lstat s src rel w missing = remove_known_backup_path s src rel w
sync_lstat s src rel w unreadable = (some lstat_failed, w)
sync_lstat s src rel w (found info) = sync_found s src rel info w

unfoldable pub sync_rel : Syncer → Source → Bytes → World → Option SyncError × World
unfolding sync_found has_symlink_in_path remove_known_backup_path excluded escapes
sync_rel s src path w =
    let rel = clean path in
    if path === dot
    then (none, w)
    else if escapes rel
    then (some path_escapes, w)
    else if excluded s.excluder rel
    then remove_known_backup_path s src rel w
    else elim (has_symlink_in_path src rel) [
      | none ↦ (some lstat_failed, w)
      | some true ↦ remove_known_backup_path s src rel w
      | some false ↦ sync_lstat s src rel w (src.lstat rel)
    ]
