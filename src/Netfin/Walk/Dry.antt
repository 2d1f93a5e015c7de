-- ===== src/Netfin/Walk/Dry.antt =====
-- In a dry run the walks change nothing.
use dockerset.Base.{
  ◌≡◌, refl, ap, ◌∙◌, inl, inr, Bool, true, false, List, [], ◌∷◌, Option, none, some, arith, ◌===◌,
  Bytes, Bool-cases, Option-cases,
}
use dockerset.Go.Maps.{Map}
use dockerset.Go.Path.{clean, dot}
use dockerset.Go.Walk.{Entries}
use dockerset.Go.Walk.Keeps.{walk_all_keeps}
use dockerset.Netfin.Excluder.{excluded}
use dockerset.Netfin.Disk.{
  SyncError, FileInfo, FileKind, directory, regular, symlink, other, Source, Node, directory_unread,
  remove_path,
}
use dockerset.Netfin.Filesync.{Syncer, World, remove_backup_path, escapes, forget_state_tree}
use dockerset.Netfin.Filesync.Laws.{sync_dir-dry, copy_rel-dry}
use dockerset.Netfin.Reconcile.{
  is_outside, is_seen, has_state, state_paths, remove_deleted_from, remove_deleted_from_state_under,
  remove_deleted_from_state,
}
use dockerset.Netfin.Walk.{
  Scan, Info, settle, visit_result, visit_kind, visit_info, is_symlink, visit, pass_over,
  walk_source, remove_deleted_by_walking_destination, Walks, remove_unlisted, mark, then_remove,
  reconcile,
}

module _ (s : Syncer) (src : Source) (dry : s.dry_run ≡ true) where
  pub remove_backup-dry : (rel : Bytes) (w : World) → (remove_backup_path s src rel w).1 ≡ w
  unfolding remove_backup_path remove_path forget_state_tree
  remove_backup-dry rel w = rw dry (ground arith)

  module _ (special : Bytes → World → Option SyncError × World)
      (special_dry : (rel : Bytes) (w : World) → (special rel w).1 ≡ w) where
    result-dry :
        (rel : Bytes) (is_dir : Bool) (info : FileInfo) (kind : FileKind) (w : World)
        → info.kind ≡ kind
        → (visit_result special s src rel is_dir info w).1 ≡ w
    unfolding visit_result
    result-dry rel true info kind w e = sync_dir-dry s src dry w rel info
    result-dry rel false info regular w e = rw (e, visit_result) (copy_rel-dry s src dry w rel info)
    result-dry rel false info directory w e = rw (e, visit_result) (special_dry rel w)
    result-dry rel false info symlink w e = rw (e, visit_result) (special_dry rel w)
    result-dry rel false info other w e = rw (e, visit_result) (special_dry rel w)

    settle-dry :
        (seen : List Bytes) (w : World) (r : Option SyncError × World)
        → r.1 ≡ w
        → (settle seen r).1.world ≡ w
    settle-dry seen w (none, w1) e = e
    settle-dry seen w (some f, w1) e = e

    visit_info-dry :
        (path : Bytes) (is_dir : Bool) (i : Info) (sc : Scan)
        → (visit_info special s src path is_dir i sc).1.world ≡ sc.world
    unfolding visit_kind
    visit_info-dry path is_dir none sc = refl
    visit_info-dry path is_dir (some i) sc = elim (Bool-cases (is_symlink i)) [
      | inl link ↦ rw link refl
      | inr plain ↦ rw plain (
          settle-dry (clean path ∷ sc.seen) sc.world
            (visit_result special s src (clean path) is_dir i sc.world)
            (result-dry (clean path) is_dir i i.kind sc.world refl))
    ]

    pub visit-dry :
        (cancelled : Bytes → Bool) (path : Bytes) (is_dir : Bool) (i : Info) (sc : Scan)
        → (visit special cancelled s src path is_dir i sc).1.world ≡ sc.world
    unfolding visit
    visit-dry cancelled path is_dir i sc = elim (Bool-cases (cancelled path)) [
      | inl done ↦ rw done refl
      | inr going ↦ elim (Bool-cases (path === dot)) [
        | inl root ↦ rw (going, root) refl
        | inr below ↦ elim (Bool-cases (excluded s.excluder path)) [
          | inl skipped ↦ rw (going, below, skipped) refl
          | inr wanted ↦ rw (going, below, wanted) (visit_info-dry path is_dir i sc)
        ]
      ]
    ]

  forget_state_tree-dry : (rel : Bytes) (w : World) → forget_state_tree s rel w ≡ w
  unfolding forget_state_tree
  forget_state_tree-dry rel w = rw dry refl

  remove_path-dry :
      (path : Bytes) (disk : Map Node) → (remove_path src path s.dry_run disk).1 ≡ disk
  unfolding remove_path
  remove_path-dry path disk = rw dry (ground arith)

  remove_deleted_from-dry :
      (root : Bytes) (seen rels : List Bytes) (w : World)
      → (remove_deleted_from s src root seen rels w).1 ≡ w
  unfolding remove_deleted_from
  remove_deleted_from-dry root seen [] w = refl
  remove_deleted_from-dry root seen (rel ∷ rels) w =
      let same : record w { disk = (remove_path src (clean rel) s.dry_run w.disk).1 } ≡ w =
        ap (λ (d : Map Node). record w { disk = d }) (remove_path-dry (clean rel) w.disk) in
      let rest = remove_deleted_from-dry root seen rels w in
      elim (Bool-cases (is_outside root rel)) [
        | inl outside ↦ rw outside rest
        | inr inside ↦ elim (Bool-cases (is_seen seen rel)) [
          | inl met ↦ rw (inside, met) rest
          | inr unmet ↦ elim (Bool-cases (has_state rel w)) [
            | inr unknown ↦ rw (inside, unmet, unknown) rest
            | inl known ↦ elim (Bool-cases (escapes (clean rel))) [
              | inl out ↦ rw (inside, unmet, known, out) refl
              | inr below ↦ elim (Option-cases (remove_path src (clean rel) s.dry_run w.disk).0) [
                | inl gone ↦
                    rw (inside, unmet, known, below, gone)
                      (ap (λ (x : World). (remove_deleted_from s src root seen rels x).1)
                          (forget_state_tree-dry rel
                              (record w { disk = (remove_path src (clean rel) s.dry_run w.disk).1 })
                            ∙ same)
                        ∙ rest)
                | inr (failed, at) ↦ rw (inside, unmet, known, below, at) same
              ]
            ]
          ]
        ]
      ]

  pub sweep-dry :
      (root : Bytes) (seen : List Bytes) (w : World)
      → (remove_deleted_from_state_under s src root seen w).1 ≡ w
  unfolding remove_deleted_from_state_under
  sweep-dry root seen w = remove_deleted_from-dry (clean root) seen (state_paths w) w

  walk_source-dry :
      (cancelled : Bytes → Bool) (root : Option (Entries Info)) (w : World)
      → (walk_source cancelled s src root w).1.world ≡ w
  unfolding walk_source
  walk_source-dry cancelled none w = refl
  walk_source-dry cancelled (some es) w = elim (Bool-cases (cancelled dot)) [
    | inl done ↦ rw done refl
    | inr going ↦ rw going (
        walk_all_keeps (visit pass_over cancelled s src) directory_unread (λ sc. sc.world ≡ w)
          (λ path is_dir i sc same.
            visit-dry pass_over (λ rel x. refl) cancelled path is_dir i sc ∙ same)
          dot es (record { world = w; seen = [] }) refl)
  ]

  remove_unlisted-dry :
      (ws : Walks) (reconciled : Bool) (sc : Scan)
      → (remove_unlisted ws s src reconciled sc).1 ≡ sc.world
  unfolding remove_unlisted remove_deleted_by_walking_destination remove_deleted_from_state
  remove_unlisted-dry ws true sc = sweep-dry dot sc.seen sc.world
  remove_unlisted-dry ws false sc = rw dry refl

  mark-dry : (b : Bool) (w : World) (r : Option SyncError × World) → r.1 ≡ w → (mark b r).1 ≡ w
  mark-dry b w (none, w1) e = e
  mark-dry b w (some f, w1) e = e

  then_remove-dry :
      (ws : Walks) (b : Bool) (w : World) (r : Option SyncError × Scan)
      → r.1.world ≡ w
      → (then_remove ws s src b r).1 ≡ w
  then_remove-dry ws b w (none, sc) e =
      mark-dry b w (remove_unlisted ws s src b sc) (remove_unlisted-dry ws b sc ∙ e)
  then_remove-dry ws b w (some f, sc) e = e

  pub reconcile-dry : (ws : Walks) (b : Bool) (w : World) → (reconcile ws s src b w).1 ≡ w
  unfolding reconcile
  reconcile-dry ws b w =
      then_remove-dry ws b w (walk_source ws.cancelled s src ws.root w)
        (walk_source-dry ws.cancelled ws.root w)
