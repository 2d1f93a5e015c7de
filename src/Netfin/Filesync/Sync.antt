-- ===== src/Netfin/Filesync/Sync.antt =====
-- `SyncRel` outside a dry run.
use dockerset.Base.{
  ℕ, ◌≡◌, ◌≢◌, refl, ap, ◌∙◌, inl, inr, true, false, [], none, some, arith, ◌===◌, ===_iff,
  if◌then◌else◌, Bool-cases, Option-cases, Bytes,
}
use dockerset.Go.Maps.{get, get-delete_if}
use dockerset.Go.Path.{clean, dot}
use dockerset.Netfin.Excluder.{excluded}
use dockerset.Netfin.Disk.{
  file_node, not_a_directory, FileInfo, Source, found, missing, in_tree, FileKind, directory,
  regular, symlink, other, mkdir_all, make_dirs, make_dir, parents_from,
}
use dockerset.Netfin.Disk.Laws.{make_dirs-Grows}
use dockerset.Netfin.Filesync.{
  Syncer, World, path_kind_dir, path_kind_file, sync_rel, sync_found, sync_dir, state_matches,
  path_state_from_info, has_state_tree, escapes, has_symlink_in_path, ensure_dir,
}
use dockerset.Netfin.Filesync.Laws.{sync_rel-cases}
use dockerset.Netfin.Filesync.Recorded.{
  IsRecorded, without_tree, remove_known-without_tree, sync_dir-IsRecorded, remove_known-IsRecorded,
}
use dockerset.Netfin.Filesync.Mirror.{HasFile, IsSteady, copy_rel-Copied}

module _ (s : Syncer) (src : Source) (w : World) (wet : s.dry_run ≡ false) (ok : IsRecorded w) where
  kind-IsRecorded :
      (rel : Bytes) (info : FileInfo) (kind : FileKind)
      → info.kind ≡ kind
      → clean rel ≢ dot
      → IsSteady src (clean rel) info
      → IsRecorded (sync_found s src rel info w).1
  unfolding sync_found
  kind-IsRecorded rel info directory e below steady =
      rw (e, sync_found) (sync_dir-IsRecorded s src rel info w wet below ok)
  kind-IsRecorded rel info regular e below steady =
      rw (e, sync_found) (copy_rel-Copied s src rel info w wet below ok steady).0
  kind-IsRecorded rel info symlink e below steady =
      rw (e, sync_found) (remove_known-IsRecorded s src rel w wet below ok)
  kind-IsRecorded rel info other e below steady =
      rw (e, sync_found) (remove_known-IsRecorded s src rel w wet below ok)

  -- Outside a dry run, whatever stands at the source, and whether it fails or not, `SyncRel` at a
  -- path below the root keeps this: every recorded path stands in the backup with the recorded kind,
  -- and a file with the recorded permissions, size and time. No one writes to the source file
  -- meanwhile.
  pub sync_rel-IsRecorded :
      (path : Bytes)
      → clean (clean path) ≢ dot
      → ((info : FileInfo)
          → src.lstat (clean path) ≡ found info
          → IsSteady src (clean (clean path)) info)
      → IsRecorded (sync_rel s src path w).1
  sync_rel-IsRecorded path below steady =
      sync_rel-cases s src w (λ r. IsRecorded r.1) path (λ e. ok) ok
        (remove_known-IsRecorded s src (clean path) w wet below ok)
        (λ info e. kind-IsRecorded (clean path) info info.kind refl below (steady info e))

  -- Where `SyncRel` returns without an error for a regular file that is not excluded and behind no
  -- link, the backup holds a file with its permissions, time and size, if every recorded path stands
  -- in the backup as recorded and no one writes to the source file meanwhile.
  pub sync_rel-HasFile :
      (path : Bytes) (info : FileInfo)
      → clean (clean path) ≢ dot
      → IsSteady src (clean (clean path)) info
      → src.lstat (clean path) ≡ found info
      → info.kind ≡ regular
      → excluded s.excluder (clean path) ≡ false
      → has_symlink_in_path src (clean path) ≡ some false
      → path ≢ dot
      → (sync_rel s src path w).0 ≡ none
      → HasFile (clean (clean path)) info (sync_rel s src path w).1.disk
  unfolding sync_rel sync_found
  sync_rel-HasFile path info below steady seen kind wanted plain named =
      let top : (path === dot) ≡ false = ground (arith, ===_iff path dot) in
      elim (Bool-cases (escapes (clean path))) [
        | inl out ↦ rw (top, out) (λ h. absurd cc)
        | inr inside ↦
            rw (top, inside, wanted, plain, seen, kind, sync_found)
              (copy_rel-Copied s src (clean path) info w wet below ok steady).1
      ]

  mkdir_all-file :
      (k : Bytes) (mode m t : ℕ) (c : Bytes)
      → k ≢ dot
      → get k w.disk ≡ some (file_node m t c)
      → mkdir_all k mode w.disk ≡ none
  unfolding mkdir_all make_dir
  mkdir_all-file k mode m t c below at =
      let top : (k === dot) ≡ false = ground (arith, ===_iff k dot) in
      elim (Option-cases (make_dirs (parents_from [] k) mode w.disk)) [
        | inl refused ↦ rw (top, refused) refl
        | inr (above, done) ↦
            let still =
              make_dirs-Grows (parents_from [] k) mode w.disk above done k (file_node m t c) at in
            rw (top, done, still) refl
      ]

  file-unmatched :
      (rel : Bytes) (info : FileInfo) (m t : ℕ) (c : Bytes)
      → clean rel ≢ dot
      → get (clean rel) w.disk ≡ some (file_node m t c)
      → state_matches rel (path_state_from_info path_kind_dir info) w ≡ false
  unfolding state_matches path_state_from_info
  file-unmatched rel info m t c below at = elim (Option-cases (get (clean rel) w.state)) [
    | inl e ↦ rw (e, state_matches) refl
    | inr (known, e) ↦
        let (n, there, match_n) = ok (clean rel) known below e in
        let same : n ≡ file_node m t c = ground (arith, there, at) in
        let kind : known.kind ≡ path_kind_file = (rw same at match_n).0 in
        rw (e, state_matches, kind) refl
  ]

  -- A directory at the source of a path where the backup holds a file is never taken over, outside a
  -- dry run: the file stays, nothing is recorded, and the error comes back at each try.
  pub sync_dir-file_in_place :
      (rel : Bytes) (info : FileInfo) (m t : ℕ) (c : Bytes)
      → clean rel ≢ dot
      → get (clean rel) w.disk ≡ some (file_node m t c)
      → escapes (clean rel) ≡ false
      → src.fails (clean rel) ≡ false
      → sync_dir s src rel info w ≡ (some not_a_directory, w)
  unfolding sync_dir ensure_dir
  sync_dir-file_in_place rel info m t c below at inside good =
      rw
        (
          file-unmatched rel info m t c below at,
          inside,
          wet,
          good,
          mkdir_all-file (clean rel) info.mode m t c below at,
        )
        refl

-- The state and the backup without what stands at or under k; all else as it was.
abbrev pub IsWithout : Bytes → World → World → Type 0
IsWithout k w left =
    ((p : Bytes) → get p left.state ≡ (if in_tree k p then none else get p w.state))
    × ((p : Bytes) → get p left.disk ≡ (if in_tree k p then none else get p w.disk))

-- When a recorded path is gone from the source, and the disk does not fail, `SyncRel` succeeds
-- outside a dry run, and takes it and all that stands under it out of the backup and of the recorded
-- state; everything else stays as it is.
pub sync_rel-removed :
    (s : Syncer) (src : Source) (w : World) (path : Bytes)
    → s.dry_run ≡ false
    → path ≢ dot
    → clean (clean path) ≢ dot
    → escapes (clean path) ≡ false
    → excluded s.excluder (clean path) ≡ false
    → has_symlink_in_path src (clean path) ≡ some false
    → src.lstat (clean path) ≡ missing
    → has_state_tree (clean path) w ≡ true
    → src.fails (clean (clean path)) ≡ false
    → ((sync_rel s src path w).0 ≡ none)
      × IsWithout (clean (clean path)) w (sync_rel s src path w).1
unfolding sync_rel
sync_rel-removed s src w path wet named below inside wanted plain gone known good =
    let top : (path === dot) ≡ false = ground (arith, ===_iff path dot) in
    let k = clean (clean path) in
    let done : sync_rel s src path w ≡ (none, without_tree k w) =
      rw (top, inside, wanted, plain, gone)
        (remove_known-without_tree s src (clean path) w wet below known good) in
    (
      ap (λ r. r.0) done,
      (
        λ p. ap (λ r. get p r.1.state) done ∙ get-delete_if (in_tree k) p w.state,
        λ p. ap (λ r. get p r.1.disk) done ∙ get-delete_if (in_tree k) p w.disk,
      ),
    )
