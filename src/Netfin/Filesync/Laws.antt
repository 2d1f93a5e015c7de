-- ===== src/Netfin/Filesync/Laws.antt =====
-- What `SyncRel` does on every branch in a dry run, and where a file and a directory change places.
use dockerset.Base.{
  ◌≡◌, refl, inl, inr, true, Option, none, some, arith, ◌===◌, Bool-cases, Option-cases, Bytes,
}
use dockerset.Go.Path.{clean, dot}
use dockerset.Netfin.Excluder.{excluded}
use dockerset.Netfin.Disk.{
  SyncError, path_escapes, lstat_failed, Lstat, FileInfo, Source, missing, unreadable, found,
  atomic_copy_file, remove_path,
}
use dockerset.Netfin.Filesync.{
  Syncer, World, sync_lstat, sync_rel, sync_found, sync_dir, copy_rel, remove_known_backup_path,
  remove_backup_path, ensure_dir, remember_state, forget_state_tree, escapes, has_symlink_in_path,
}

-- `SyncRel` ends in one of five ways; a claim that holds of each holds of it.
module _ (s : Syncer) (src : Source) (w : World) (P : Option SyncError × World → Type 0) where
  sync_lstat-cases :
      (rel : Bytes) (l : Lstat)
      → ((e : SyncError) → P (some e, w))
      → P (remove_known_backup_path s src rel w)
      → ((info : FileInfo) → l ≡ found info → P (sync_found s src rel info w))
      → P (sync_lstat s src rel w l)
  sync_lstat-cases rel missing failed removed synced = removed
  sync_lstat-cases rel unreadable failed removed synced = failed lstat_failed
  sync_lstat-cases rel (found info) failed removed synced = synced info refl

  pub sync_rel-cases :
      (path : Bytes)
      → ((e : SyncError) → P (some e, w))
      → P (none, w)
      → P (remove_known_backup_path s src (clean path) w)
      → ((info : FileInfo)
          → src.lstat (clean path) ≡ found info
          → P (sync_found s src (clean path) info w))
      → P (sync_rel s src path w)
  unfolding sync_rel
  sync_rel-cases path failed unchanged removed synced = elim (Bool-cases (path === dot)) [
    | inl root ↦ rw root unchanged
    | inr below ↦ elim (Bool-cases (escapes (clean path))) [
      | inl out ↦ rw (below, out) (failed path_escapes)
      | inr inside ↦ elim (Bool-cases (excluded s.excluder (clean path))) [
        | inl skipped ↦ rw (below, inside, skipped) removed
        | inr wanted ↦ elim (Option-cases (has_symlink_in_path src (clean path))) [
          | inl unread ↦ rw (below, inside, wanted, unread) (failed lstat_failed)
          | inr (linked, e) ↦ elim (Bool-cases linked) [
            | inl outside ↦ rw (below, inside, wanted, e, outside) removed
            | inr plain ↦
                rw (below, inside, wanted, e, plain)
                  (sync_lstat-cases (clean path) (src.lstat (clean path)) failed removed synced)
          ]
        ]
      ]
    ]
  ]

module _ (s : Syncer) (src : Source) (dry : s.dry_run ≡ true) (w : World) where
  pub remove_known-dry : (rel : Bytes) → (remove_known_backup_path s src rel w).1 ≡ w
  unfolding remove_known_backup_path remove_backup_path remove_path forget_state_tree
  remove_known-dry rel = rw dry (ground arith)

  pub sync_dir-dry : (rel : Bytes) (info : FileInfo) → (sync_dir s src rel info w).1 ≡ w
  unfolding sync_dir ensure_dir remember_state
  sync_dir-dry rel info = rw dry (ground arith)

  pub copy_rel-dry : (rel : Bytes) (info : FileInfo) → (copy_rel s src rel info w).1 ≡ w
  unfolding copy_rel atomic_copy_file remember_state
  copy_rel-dry rel info = rw dry (ground arith)

  sync_found-dry : (rel : Bytes) (info : FileInfo) → (sync_found s src rel info w).1 ≡ w
  unfolding sync_found
  sync_found-dry rel info =
      ground (arith, remove_known-dry rel, sync_dir-dry rel info, copy_rel-dry rel info)

  -- A dry run changes neither the backup nor the recorded state, whatever stands at the source.
  pub sync_rel-dry_run : (path : Bytes) → (sync_rel s src path w).1 ≡ w
  sync_rel-dry_run path =
      sync_rel-cases s src w (λ r. r.1 ≡ w) path (λ e. refl) refl (remove_known-dry (clean path))
        (λ info e. sync_found-dry (clean path) info)
