-- ===== src/Netfin/Filesync/Recorded.antt =====
-- The recorded state and the backup.
use dockerset.Base.{
  ℕ, ◌≡◌, ◌≢◌, refl, ap, sym, ◌∙◌, ◌⊎◌, inl, inr, true, false, [], Option, none, some, arith, ◌===◌,
  ===_iff, Bool-cases, Option-cases, Bytes, length,
}
use mathlib.Core.Path.{subst}
use dockerset.Go.Maps.{Map, get, put, delete_if, get-put, get-delete_if}
use dockerset.Go.Path.{clean, dot}
use dockerset.Netfin.Disk.{
  Node, dir_node, file_node, SyncError, FileInfo, Source, source_unreadable, disk_failed,
  not_a_directory, is_a_directory, atomic_copy_file, remove_path, mkdir_all, make_dirs, make_dir,
  parents_from, in_tree, rename_onto, rename_at, dir_mode,
}
use dockerset.Netfin.Disk.Laws.{Grows, get-put_same, make_dir-Grows, make_dirs-Grows}
use dockerset.Netfin.Filesync.{
  Syncer, World, PathState, path_kind_dir, path_kind_file, sync_dir, remove_known_backup_path,
  remove_backup_path, ensure_dir, remember_state, forget_state_tree, state_matches,
  path_state_from_info, has_state_tree, escapes,
}

-- What stands in the backup has the recorded kind, and a file has the recorded metadata.
abbrev pub Matches : PathState → Node → Type 0
Matches st (dir_node m) = st.kind ≡ path_kind_dir
Matches st (file_node mode mod_time bytes) =
    (st.kind ≡ path_kind_file)
    × (st.mode ≡ mode)
    × (st.size ≡ length bytes)
    × (st.mod_time ≡ mod_time)

-- Every recorded path below the root stands in the backup as recorded.
abbrev pub IsRecorded : World → Type 0
IsRecorded w =
    (p : Bytes) (st : PathState)
    → p ≢ dot
    → get p w.state ≡ some st
    → (n : Node) × (get p w.disk ≡ some n) × Matches st n

pub grown-IsRecorded :
    (w : World) (disk : Map Node)
    → IsRecorded w
    → Grows w.disk disk
    → IsRecorded (record w { disk = disk })
grown-IsRecorded w disk ok grows p st below h =
    let (n, at, m) = ok p st below h in (n, grows p n at, m)

pub put-IsRecorded :
    (w : World) (k : Bytes) (st : PathState) (disk : Map Node) (n : Node)
    → IsRecorded w
    → ((p : Bytes) (m : Node) → p ≢ k → get p w.disk ≡ some m → get p disk ≡ some m)
    → get k disk ≡ some n
    → Matches st n
    → IsRecorded (record { state = put k st w.state; disk = disk })
put-IsRecorded w k st disk n ok kept at m p st1 below h = elim (Bool-cases (k === p)) [
  | inl e ↦
      let same : k ≡ p = (===_iff k p).0 e in
      let got : some st ≡ some st1 = ground (arith, get-put k p st w.state) in
      let eq : st ≡ st1 = cc in rw (sym same, sym eq) (n, at, m)
  | inr e ↦
      let got : get p w.state ≡ some st1 = ground (arith, get-put k p st w.state) in
      let other_path : p ≢ k = λ q. ground (arith, ===_iff k p) in
      let (n1, at1, m1) = ok p st1 below got in (n1, kept p n1 other_path at1, m1)
]

abbrev pub without_tree : Bytes → World → World
without_tree k w = record {
  state = delete_if (in_tree k) w.state;
  disk = delete_if (in_tree k) w.disk;
}

pub remove_known-without_tree :
    (s : Syncer) (src : Source) (rel : Bytes) (w : World)
    → s.dry_run ≡ false
    → clean rel ≢ dot
    → has_state_tree rel w ≡ true
    → src.fails (clean rel) ≡ false
    → remove_known_backup_path s src rel w ≡ (none, without_tree (clean rel) w)
unfolding remove_known_backup_path remove_backup_path remove_path forget_state_tree
remove_known-without_tree s src rel w wet below known good =
    let top : (clean rel === dot) ≡ false = ground (arith, ===_iff (clean rel) dot) in
    rw (known, wet, good, top) refl

without_tree-IsRecorded : (k : Bytes) (w : World) → IsRecorded w → IsRecorded (without_tree k w)
without_tree-IsRecorded k w ok p st down h = elim (Bool-cases (in_tree k p)) [
  | inl gone ↦ absurd (ground (arith, get-delete_if (in_tree k) p w.state))
  | inr kept ↦
      let was : get p w.state ≡ some st = ground (arith, get-delete_if (in_tree k) p w.state) in
      let (n, at, m) = ok p st down was in
      (n, ground (arith, get-delete_if (in_tree k) p w.disk), m)
]

pub remove_known-IsRecorded :
    (s : Syncer) (src : Source) (rel : Bytes) (w : World)
    → s.dry_run ≡ false
    → clean rel ≢ dot
    → IsRecorded w
    → IsRecorded (remove_known_backup_path s src rel w).1
unfolding remove_known_backup_path remove_backup_path remove_path
remove_known-IsRecorded s src rel w wet below ok = elim (Bool-cases (has_state_tree rel w)) [
  | inr unknown ↦ rw unknown ok
  | inl known ↦ elim (Bool-cases (src.fails (clean rel))) [
    | inl bad ↦ rw (known, wet, bad) ok
    | inr good ↦
        subst (λ (r : Option SyncError × World). IsRecorded r.1)
          (sym (remove_known-without_tree s src rel w wet below known good))
          (without_tree-IsRecorded (clean rel) w ok)
  ]
]

pub mkdir_all-Grows :
    (rel : Bytes) (mode : ℕ) (fs made : Map Node)
    → rel ≢ dot
    → mkdir_all rel mode fs ≡ some made
    → Grows fs made × ((m : ℕ) × (get rel made ≡ some (dir_node m)))
unfolding mkdir_all
mkdir_all-Grows rel mode fs made below h =
    let top : (rel === dot) ≡ false = ground (arith, ===_iff rel dot) in
    elim (Option-cases (make_dirs (parents_from [] rel) mode fs)) [
      | inl refused ↦ absurd (ground arith)
      | inr (above, done) ↦
          let last : make_dir rel mode above ≡ some made = ground arith in
          let (grows, there) = make_dir-Grows rel mode above made last in
          (
            (λ p n e. grows p n (make_dirs-Grows (parents_from [] rel) mode fs above done p n e)),
            there,
          )
    ]

pub sync_dir-IsRecorded :
    (s : Syncer) (src : Source) (rel : Bytes) (info : FileInfo) (w : World)
    → s.dry_run ≡ false
    → clean rel ≢ dot
    → IsRecorded w
    → IsRecorded (sync_dir s src rel info w).1
unfolding sync_dir ensure_dir remember_state path_state_from_info
sync_dir-IsRecorded s src rel info w wet below ok =
    let st = path_state_from_info path_kind_dir info in
    elim (Bool-cases (state_matches rel st w)) [
      | inl known ↦ rw known ok
      | inr new ↦ elim (Bool-cases (escapes (clean rel))) [
        | inl out ↦ rw (new, out) ok
        | inr inside ↦ elim (Bool-cases (src.fails (clean rel))) [
          | inl bad ↦ rw (new, inside, wet, bad) ok
          | inr good ↦ elim (Option-cases (mkdir_all (clean rel) info.mode w.disk)) [
            | inl refused ↦ rw (new, inside, wet, good, refused) ok
            | inr (made, done) ↦
                let (grows, (m, there)) =
                  mkdir_all-Grows (clean rel) info.mode w.disk made below done in
                rw (new, inside, wet, good, done, wet)
                  (put-IsRecorded w (clean rel) st made (dir_node m) ok
                    (λ p n other_path e. grows p n e) there refl)
          ]
        ]
      ]
    ]

-- A copy that fails loses nothing; one that succeeds puts the file there and keeps all else.
abbrev pub CopyEnd : Source → Bytes → FileInfo → Map Node → Option SyncError × Map Node → Type 0
CopyEnd src k info fs r =
    ((e : SyncError) × (r.0 ≡ some e) × Grows fs r.1)
    ⊎ ((bytes : Bytes) × (r.0 ≡ none)
        × (src.content k ≡ some bytes)
        × (get k r.1 ≡ some (file_node info.mode info.mod_time bytes))
        × ((p : Bytes) (m : Node) → p ≢ k → get p fs ≡ some m → get p r.1 ≡ some m))

put-kept :
    (k : Bytes) (node : Node) (fs above : Map Node)
    → Grows fs above
    → (p : Bytes) (m : Node) → p ≢ k
    → get p fs ≡ some m
    → get p (put k node above) ≡ some m
put-kept k node fs above grows p m apart e =
    let there = grows p m e in
    elim (Bool-cases (k === p)) [
      | inl q ↦ absurd (apart (sym ((===_iff k p).0 q)))
      | inr q ↦ get-put k p node above ∙ rw q there
    ]

rename_at-CopyEnd :
    (src : Source) (k bytes : Bytes) (info : FileInfo) (fs above : Map Node) (o : Option Node)
    → src.content k ≡ some bytes
    → Grows fs above
    → CopyEnd src k info fs (rename_at k (file_node info.mode info.mod_time bytes) above o)
rename_at-CopyEnd src k bytes info fs above (some (dir_node m)) read grows =
    inl (is_a_directory, refl, grows)
rename_at-CopyEnd src k bytes info fs above (some (file_node m t c)) read grows =
    let node = file_node info.mode info.mod_time bytes in
    inr (bytes, refl, read, get-put_same k node above, put-kept k node fs above grows)
rename_at-CopyEnd src k bytes info fs above none read grows =
    let node = file_node info.mode info.mod_time bytes in
    inr (bytes, refl, read, get-put_same k node above, put-kept k node fs above grows)

pub atomic_copy-CopyEnd :
    (src : Source) (k : Bytes) (info : FileInfo) (fs : Map Node)
    → CopyEnd src k info fs (atomic_copy_file src k info.mode info.mod_time false fs)
unfolding atomic_copy_file rename_onto
atomic_copy-CopyEnd src k info fs =
    let run = atomic_copy_file src k info.mode info.mod_time false fs in
    let stop : (e : SyncError) → run ≡ (some e, fs) → CopyEnd src k info fs run =
      λ e h. inl (e, ap (λ r. r.0) h, λ p n g. ap (λ r. get p r.1) h ∙ g) in
    elim (Option-cases (src.content k)) [
      | inl e ↦ stop source_unreadable (ground arith)
      | inr (bytes, e) ↦ elim (Bool-cases (src.fails k)) [
        | inl bad ↦ stop disk_failed (ground arith)
        | inr good ↦ elim (Option-cases (make_dirs (parents_from [] k) dir_mode fs)) [
          | inl refused ↦ stop not_a_directory (ground arith)
          | inr (above, done) ↦
              let renamed : run
                  ≡ rename_at k (file_node info.mode info.mod_time bytes) above (get k above) =
                ground arith in
              subst (CopyEnd src k info fs) (sym renamed) (
                rename_at-CopyEnd src k bytes info fs above (get k above) e
                  (make_dirs-Grows (parents_from [] k) dir_mode fs above done))
        ]
      ]
    ]
