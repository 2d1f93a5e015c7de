-- ===== src/Netfin/Walk/Recorded.antt =====
-- After the walk of `Reconcile` the backup holds what the source does.
use dockerset.Base.{
  ℕ, ◌≡◌, ◌≢◌, refl, ap, sym, ◌∙◌, ◌⊎◌, inl, inr, Bool, true, false, List, [], ◌∷◌, map, Option,
  none, some, arith, ◌===◌, ===_iff, if◌then◌else◌, Bool-cases, Option-cases, Bytes, All, In, any,
}
use mathlib.Core.Path.{subst}
use dockerset.Go.Maps.{get, get-put}
use dockerset.Go.Path.{clean, dot}
use dockerset.Go.Walk.{Entries, continue}
use dockerset.Netfin.Disk.{
  SyncError, FileInfo, FileKind, directory, regular, symlink, other, Source, atomic_copy_file,
}
use dockerset.Netfin.Filesync.{
  Syncer, World, PathState, path_kind_dir, path_kind_file, path_state_from_info, sync_dir, copy_rel,
  ensure_dir, state_matches, remember_state, then_remember, file_metadata_matches, escapes,
  same_state,
}
use dockerset.Netfin.Filesync.Recorded.{IsRecorded, sync_dir-IsRecorded}
use dockerset.Netfin.Filesync.Mirror.{IsSteady, copy_rel-Copied}
use dockerset.Netfin.Reconcile.{is_seen}
use dockerset.Netfin.Walk.{Scan, Info, settle, visit_result, visit_kind, pass_over, walk_source}
use dockerset.Netfin.Walk.Visits.{Visit, finish, run_visits}
use dockerset.Netfin.Walk.States.{state_of, Records, Keeps, AreDistinct, same_state-eq, unequal}
use dockerset.Netfin.Walk.Listing.{source_visits, none_seen, walk_source-run_visits}

-- What the walk needs of an entry: it lies below the root, and no one writes to a file meanwhile.
abbrev pub IsReady : Source → Visit → Type 0
IsReady src v = (clean v.path ≢ dot) × IsSteady src (clean v.path) v.info

-- A directory or a regular file is backed up.
abbrev pub is_backed : Visit → Bool
is_backed v = if v.is_dir then true else elim v.info.kind [ regular ↦ true | _ ↦ false ]

module _ (s : Syncer) (src : Source) (wet : s.dry_run ≡ false) where
  -- A step that leaves the state alone, and the record behind it
  remembered :
      (rel : Bytes) (st : PathState) (w : World) (r : Option SyncError × World)
      → r.1.state ≡ w.state
      → Keeps (clean rel) w (then_remember s rel st r).1
        × ((then_remember s rel st r).0 ≡ none
            → Records (clean rel) st (then_remember s rel st r).1)
  unfolding remember_state
  remembered rel st w (some e, w1) same = ((λ p apart. ap (get p) same), λ h. absurd cc)
  remembered rel st w (none, w1) same = rw wet (
    (λ p apart.
        get-put (clean rel) p st w1.state ∙ rw (unequal (clean rel) p apart) (ap (get p) same)),
    λ h.
        get-put (clean rel) (clean rel) st w1.state
        ∙ rw ((===_iff (clean rel) (clean rel)).1 refl) refl,
  )

  ensure_dir-state :
      (rel : Bytes) (mode : ℕ) (w : World) → (ensure_dir s src rel mode w).1.state ≡ w.state
  unfolding ensure_dir
  ensure_dir-state rel mode w = ground arith

  matched-Records :
      (rel : Bytes) (st : PathState) (w : World)
      → state_matches rel st w ≡ true
      → Records (clean rel) st w
  unfolding state_matches
  matched-Records rel st w h = elim (Option-cases (get (clean rel) w.state)) [
    | inl e ↦ absurd (ground arith)
    | inr (known, e) ↦
        let same : same_state known st ≡ true = rw (e, state_matches) at h in
        e ∙ ap some (same_state-eq known st same)
  ]

  abbrev Ends : Bytes → PathState → World → Option SyncError × World → Type 0
  Ends k st w r = Keeps k w r.1 × (r.0 ≡ none → Records k st r.1)

  sync_dir-Ends :
      (rel : Bytes) (info : FileInfo) (w : World)
      → Ends (clean rel) (path_state_from_info path_kind_dir info) w (sync_dir s src rel info w)
  unfolding sync_dir
  sync_dir-Ends rel info w =
      let st = path_state_from_info path_kind_dir info in
      elim (Bool-cases (state_matches rel st w)) [
        | inl known ↦ rw known ((λ p apart. refl), λ h. matched-Records rel st w known)
        | inr new ↦ rw new (
            remembered rel st w (ensure_dir s src rel info.mode w)
              (ensure_dir-state rel info.mode w))
      ]

  copy_rel-Ends :
      (rel : Bytes) (info : FileInfo) (w : World)
      → Ends (clean rel) (path_state_from_info path_kind_file info) w (copy_rel s src rel info w)
  unfolding copy_rel
  copy_rel-Ends rel info w =
      let st = path_state_from_info path_kind_file info in
      elim (Bool-cases (state_matches rel st w)) [
        | inl known ↦ rw known ((λ p apart. refl), λ h. matched-Records rel st w known)
        | inr new ↦ elim (Bool-cases (escapes (clean rel))) [
          | inl out ↦ rw (new, out) ((λ p apart. refl), λ h. absurd cc)
          | inr inside ↦ elim (Bool-cases (file_metadata_matches (clean rel) info w.disk)) [
            | inl same ↦ rw (new, inside, same) (remembered rel st w (none, w) refl)
            | inr stale ↦
                let (e, disk) =
                  atomic_copy_file src (clean rel) info.mode info.mod_time s.dry_run w.disk in
                rw (new, inside, stale) (remembered rel st w (e, record w { disk = disk }) refl)
          ]
        ]
      ]

  result-IsRecorded :
      (rel : Bytes) (is_dir : Bool) (info : FileInfo) (kind : FileKind) (w : World)
      → info.kind ≡ kind
      → clean rel ≢ dot
      → IsSteady src (clean rel) info
      → IsRecorded w
      → IsRecorded (visit_result pass_over s src rel is_dir info w).1
  unfolding visit_result
  result-IsRecorded rel true info kind w e below steady ok =
      sync_dir-IsRecorded s src rel info w wet below ok
  result-IsRecorded rel false info regular w e below steady ok =
      rw (e, visit_result) (copy_rel-Copied s src rel info w wet below ok steady).0
  result-IsRecorded rel false info directory w e below steady ok = rw (e, visit_result) ok
  result-IsRecorded rel false info symlink w e below steady ok = rw (e, visit_result) ok
  result-IsRecorded rel false info other w e below steady ok = rw (e, visit_result) ok

  abbrev Backs : Visit → World → Option SyncError × World → Type 0
  Backs v w r =
      Keeps (clean v.path) w r.1
      × (is_backed v ≡ true → r.0 ≡ none → Records (clean v.path) (state_of v) r.1)

  result-Backs :
      (v : Visit) (is_dir : Bool) (kind : FileKind) (w : World)
      → v.is_dir ≡ is_dir
      → v.info.kind ≡ kind
      → Backs v w (visit_result pass_over s src v.path is_dir v.info w)
  unfolding visit_result path_state_from_info
  result-Backs v true kind w d e =
      let (keeps, records) = sync_dir-Ends v.path v.info w in (keeps, λ b. rw d records)
  result-Backs v false regular w d e =
      let (keeps, records) = copy_rel-Ends v.path v.info w in
      rw (e, visit_result) (keeps, λ b. rw d records)
  result-Backs v false directory w d e =
      rw (e, visit_result) ((λ p apart. refl), λ b. absurd (ground (arith, d, e)))
  result-Backs v false symlink w d e =
      rw (e, visit_result) ((λ p apart. refl), λ b. absurd (ground (arith, d, e)))
  result-Backs v false other w d e =
      rw (e, visit_result) ((λ p apart. refl), λ b. absurd (ground (arith, d, e)))

  -- What the loop has done when it ends without an error
  pub record IsWalked (vs : List Visit) (from to : Scan) : Type 0 where
    pub recorded : IsRecorded to.world
    pub keeps :
        (p : Bytes) → All (λ v. clean v.path ≢ p) vs → get p to.world.state ≡ get p from.world.state
    pub backed : All (λ v. is_backed v ≡ true → Records (clean v.path) (state_of v) to.world) vs
    pub seen :
        (p : Bytes)
        → is_seen to.seen p ≡ true
        → In p (map (λ v. v.path) vs) ⊎ (is_seen from.seen p ≡ true)
    pub listed : All (λ v. is_seen to.seen v.path ≡ true) vs
    pub seen_keeps : (p : Bytes) → is_seen from.seen p ≡ true → is_seen to.seen p ≡ true

  settled :
      (v : Visit) (vs : List Visit) (sc : Scan) (r : Option SyncError × World)
      (k : Scan → Option SyncError × Scan)
      → ((w : World)
          → r ≡ (none, w)
          → (k (record { world = w; seen = v.path ∷ sc.seen })).0 ≡ none
          → IsWalked (v ∷ vs) sc (k (record { world = w; seen = v.path ∷ sc.seen })).1)
      → (continue (finish (settle (v.path ∷ sc.seen) r)) k).0 ≡ none
      → IsWalked (v ∷ vs) sc (continue (finish (settle (v.path ∷ sc.seen) r)) k).1
  settled v vs sc (none, w) k go h = go w refl h
  settled v vs sc (some e, w) k go h = absurd cc

  run_visits-IsWalked :
      (vs : List Visit) (sc : Scan)
      → All (IsReady src) vs
      → AreDistinct vs
      → IsRecorded sc.world
      → (run_visits pass_over s src vs sc).0 ≡ none
      → IsWalked vs sc (run_visits pass_over s src vs sc).1
  unfolding run_visits any visit_kind
  run_visits-IsWalked [] sc ready distinct ok = λ h. record {
    recorded = ok;
    keeps = λ p apart. refl;
    backed = tt;
    seen = λ p e. inr e;
    listed = tt;
    seen_keeps = λ p e. e;
  }
  run_visits-IsWalked (v ∷ vs) sc ((below, steady), ready) (first, distinct) ok =
      let r = visit_result pass_over s src v.path v.is_dir v.info sc.world in
      let (kept, backs) = result-Backs v v.is_dir v.info.kind sc.world refl refl in
      settled v vs sc r (λ sc1. run_visits pass_over s src vs sc1)
        (λ w e h.
          let here : Scan = record { world = w; seen = v.path ∷ sc.seen } in
          let at : r.1 ≡ w = ap (λ q. q.1) e in
          let start : IsRecorded w =
            subst IsRecorded at (
              result-IsRecorded v.path v.is_dir v.info v.info.kind sc.world refl below steady ok) in
          let kept1 : Keeps (clean v.path) sc.world w =
            subst (Keeps (clean v.path) sc.world) at kept in
          let backs1 : is_backed v ≡ true → Records (clean v.path) (state_of v) w =
            λ b. subst (Records (clean v.path) (state_of v)) at (backs b (ap (λ q. q.0) e)) in
          let rest = run_visits-IsWalked vs here ready distinct start h in
          record {
            recorded = rest.recorded;
            keeps = λ p apart. rest.keeps p apart.1 ∙ kept1 p apart.0;
            backed = ((λ b. rest.keeps (clean v.path) first ∙ backs1 b), rest.backed);
            seen = λ p m. elim (rest.seen p m) [
              | inl later ↦ inl (inr later)
              | inr before ↦ elim (Bool-cases (v.path === p)) [
                | inl same ↦ inl (inl (sym ((===_iff v.path p).0 same)))
                | inr apart ↦ inr (rw apart at before)
              ]
            ];
            listed =
                (rest.seen_keeps v.path (rw ((===_iff v.path v.path).1 refl) refl), rest.listed);
            seen_keeps = λ p m. rest.seen_keeps p (ground (arith, m));
          })

-- After a walk of `Reconcile` that succeeds outside a dry run: each directory and regular file of the
-- source that is not excluded is recorded as the source has it; every recorded path stands in the backup
-- as recorded; other paths have the record that they had; and only listed paths were seen. The entries
-- lie below the root, no path stands twice, and no one writes to a file meanwhile.
pub walk_source-IsWalked :
    (cancelled : Bytes → Bool) (s : Syncer) (src : Source) (es : Entries Info) (w : World)
    → (wet : s.dry_run ≡ false) → All (IsReady src) (source_visits s.excluder es)
    → AreDistinct (source_visits s.excluder es)
    → IsRecorded w
    → (walk_source cancelled s src (some es) w).0 ≡ none
    → IsWalked s src wet
        (source_visits s.excluder es)
        (none_seen w)
        (walk_source cancelled s src (some es) w).1
walk_source-IsWalked cancelled s src es w wet ready distinct ok h =
    let same = walk_source-run_visits cancelled s src es w h in
    subst (λ r. IsWalked s src wet (source_visits s.excluder es) (none_seen w) r.1) (sym same)
      (run_visits-IsWalked s src wet (source_visits s.excluder es) (none_seen w) ready distinct ok
        (sym (ap (λ r. r.0) same) ∙ h))
