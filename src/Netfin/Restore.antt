-- ===== src/Netfin/Restore.antt =====
-- The restore of netfin (netfin/internal/restore/restore.go): the files of the backup, then each
-- database. `src` has the files of the backup and the faults of the target's disk; the restore of a
-- database is the litestream library's, by the replica's path and the database's.
pub mod Visits
pub mod Files
pub mod Databases
use dockerset.Base.{
  Bool, true, false, List, [], ◌∷◌, ◌++◌, Option, none, some, ◌==◌, ◌===◌, if◌then◌else◌, not,
  Bytes, length,
}
use dockerset.Go.Maps.{Map}
use dockerset.Go.Path.{clean, dot}
use dockerset.Go.Walk.{Entry, Entries, WalkStep, go_on, stop, walk_all}
use dockerset.Netfin.Disk.{
  Node, SyncError, path_escapes, lstat_failed, disk_failed, not_a_directory, walk_cancelled,
  directory_unread, FileInfo, FileKind, directory, regular, symlink, other, Source, mkdir_all,
  atomic_copy_file,
}
use dockerset.Netfin.Filesync.{escapes}
use dockerset.Netfin.Config.{Config, DbConfig}
use dockerset.Netfin.Walk.{Info}

abbrev pub settle_disk : Option SyncError × Map Node → WalkStep SyncError × Map Node
settle_disk (none, disk) = (go_on, disk)
settle_disk (some e, disk) = (stop e, disk)

abbrev pub made_dir : Map Node → Option (Map Node) → Option SyncError × Map Node
made_dir disk none = (some not_a_directory, disk)
made_dir disk (some made) = (none, made)

-- The end of the callback, for a directory and for what is none
unfoldable pub restore_at :
    Source → Bool → Bytes → Bool → FileInfo → Map Node → Option SyncError × Map Node
unfolding mkdir_all atomic_copy_file
restore_at src dry_run rel true info disk =
    if dry_run
    then (none, disk)
    else if src.fails rel
    then (some disk_failed, disk)
    else made_dir disk (mkdir_all rel info.mode disk)
restore_at src dry_run rel false info disk = elim info.kind [
  | regular ↦ atomic_copy_file src rel info.mode info.mod_time dry_run disk
  | _ ↦ (none, disk)
]

abbrev pub is_link : FileInfo → Bool
is_link info = elim info.kind [ symlink ↦ true | _ ↦ false ]

abbrev pub restore_info :
    Source → Bool → Bytes → Bool → Info → Map Node → WalkStep SyncError × Map Node
restore_info src dry_run path is_dir none disk = (stop lstat_failed, disk)
restore_info src dry_run path is_dir (some info) disk =
    if is_link info
    then (go_on, disk)
    else if escapes (clean path)
    then (stop path_escapes, disk)
    else settle_disk (restore_at src dry_run (clean path) is_dir info disk)

-- The callback of the walk over the backup
unfoldable pub restore_visit :
    (Bytes → Bool) → Source → Bool → Bytes → Bool → Info → Map Node → WalkStep SyncError × Map Node
unfolding restore_at escapes
restore_visit cancelled src dry_run path is_dir info disk =
    if cancelled path
    then (stop walk_cancelled, disk)
    else if path === dot
    then (go_on, disk)
    else restore_info src dry_run path is_dir info disk

-- `restoreFiles`; `none` is an error of Lstat at the root of the backup.
unfoldable pub restore_files :
    (Bytes → Bool) → Source → Bool → Option (Entries Info) → Map Node → Option SyncError × Map Node
unfolding walk_all restore_visit
restore_files cancelled src dry_run none disk = (some lstat_failed, disk)
restore_files cancelled src dry_run (some es) disk =
    if cancelled dot
    then (some walk_cancelled, disk)
    else walk_all (restore_visit cancelled src dry_run) directory_unread dot es disk

pub data RestoreError : Type 0 where
  files_failed : SyncError → RestoreError
  no_db_path no_replica_path no_parent library_failed : RestoreError

-- What the system gives for the databases: whether `os.MkdirAll` of the directory of a path succeeds, and
-- whether the library restores a replica to a path.
pub record Library : Type 0 where
  pub makes_parent : Bytes → Bool
  pub restores : Bytes → Bytes → Bool

-- `restoreDB`, with the databases that the library has restored
unfoldable pub restore_db :
    Library → Bool → DbConfig → List (Bytes × Bytes) → Option RestoreError × List (Bytes × Bytes)
restore_db lib dry_run db done =
    if length db.path == 0
    then (some no_db_path, done)
    else if length db.replica.path == 0
    then (some no_replica_path, done)
    else if dry_run
    then (none, done)
    else if not (lib.makes_parent db.path)
    then (some no_parent, done)
    else if lib.restores db.replica.path db.path
    then (none, done ++ ((db.replica.path, db.path) ∷ []))
    else (some library_failed, done)

abbrev pub then_next :
    Option RestoreError × List (Bytes × Bytes)
    → (List (Bytes × Bytes) → Option RestoreError × List (Bytes × Bytes))
    → Option RestoreError × List (Bytes × Bytes)
then_next (none, done) next = next done
then_next (some e, done) next = (some e, done)

-- The loop over the databases
unfoldable pub restore_dbs :
    Library
    → Bool
    → List DbConfig
    → List (Bytes × Bytes)
    → Option RestoreError × List (Bytes × Bytes)
unfolding restore_db
restore_dbs lib dry_run [] done = (none, done)
restore_dbs lib dry_run (db ∷ dbs) done =
    if not (length db.dir == 0)
    then restore_dbs lib dry_run dbs done
    else then_next (restore_db lib dry_run db done) (λ more. restore_dbs lib dry_run dbs more)

abbrev pub then_dbs :
    Library
    → Bool
    → List DbConfig
    → Option SyncError × Map Node
    → Option RestoreError × Map Node × List (Bytes × Bytes)
then_dbs lib dry_run dbs (some e, disk) = (some (files_failed e), disk, [])
then_dbs lib dry_run dbs (none, disk) =
    let (e, done) = restore_dbs lib dry_run dbs [] in (e, disk, done)

-- `Run`
unfoldable pub restore :
    Library
    → (Bytes → Bool)
    → Source
    → Bool
    → Config
    → Option (Entries Info)
    → Map Node
    → Option RestoreError × Map Node × List (Bytes × Bytes)
unfolding restore_files restore_dbs
restore lib cancelled src dry_run config backup disk =
    then_dbs lib dry_run config.dbs (restore_files cancelled src dry_run backup disk)
