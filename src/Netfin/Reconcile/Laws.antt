-- ===== src/Netfin/Reconcile/Laws.antt =====
-- After the removal every path that is still recorded was seen.
use dockerset.Base.{
  ◌≡◌, refl, ap, sym, ◌∙◌, ◌⊎◌, inl, inr, Bool, true, false, List, [], ◌∷◌, none, some, arith,
  ===_iff, Bool-cases, Bytes, In,
}
use dockerset.Go.Maps.{Map, get, keys, In-keys, get-delete_if}
use dockerset.Go.Path.{clean}
use dockerset.Netfin.Disk.{Node, disk_failed, Source, remove_path, in_tree}
use dockerset.Netfin.Filesync.{Syncer, World, PathState, escapes, forget_state_tree}
use dockerset.Netfin.Reconcile.{
  insert_path, sort_paths, path_before, state_paths, has_state, is_outside, is_seen,
  remove_deleted_from, remove_deleted_from_state_under,
}

In-insert_path : (x a : Bytes) (xs : List Bytes) → (x ≡ a) ⊎ In x xs → In x (insert_path a xs)
unfolding insert_path
In-insert_path x a [] h = h
In-insert_path x a (b ∷ bs) h = elim (Bool-cases (path_before a b)) [
  | inl e ↦ rw e h
  | inr e ↦ rw e (ground (arith, In-insert_path x a bs))
]

In-sort_paths : (x : Bytes) (xs : List Bytes) → In x xs → In x (sort_paths xs)
unfolding sort_paths
In-sort_paths x [] h = h
In-sort_paths x (a ∷ rest) h =
    In-insert_path x a (sort_paths rest) (ground (arith, In-sort_paths x rest))

-- Nothing is recorded anew.
abbrev Shrinks : World → World → Type 0
Shrinks w left = (p : Bytes) (st : PathState) → get p left.state ≡ some st → get p w.state ≡ some st

forget-Shrinks :
    (s : Syncer) (rel : Bytes) (w : World)
    → s.dry_run ≡ false
    → Shrinks w (forget_state_tree s rel w)
unfolding forget_state_tree
forget-Shrinks s rel w wet p st h =
    ground (arith, rw wet at h, get-delete_if (in_tree (clean rel)) p w.state)

pub in_tree_refl : (p : Bytes) → in_tree p p ≡ true
unfolding in_tree
in_tree_refl p = rw ((===_iff p p).1 refl) refl

forget-gone :
    (s : Syncer) (p : Bytes) (w : World)
    → s.dry_run ≡ false
    → clean p ≡ p
    → get p (forget_state_tree s p w).state ≡ none
unfolding forget_state_tree
forget-gone s p w wet tidy =
    rw wet (get-delete_if (in_tree (clean p)) p w.state ∙ rw (tidy, in_tree_refl p) refl)

no_state :
    (rel : Bytes) (w : World) (st : PathState)
    → has_state rel w ≡ false
    → clean rel ≡ rel
    → get rel w.state ≡ some st
    → ⊥
unfolding has_state
no_state rel w st gone tidy e =
    let at : get (clean rel) w.state ≡ some st = rw tidy e in
    let held : has_state rel w ≡ true = rw (at, has_state) refl in cc (held, gone)

removal_fails :
    (src : Source) (k : Bytes) (dry : Bool) (disk : Map Node)
    → dry ≡ false
    → src.fails k ≡ true
    → remove_path src k dry disk ≡ (some disk_failed, disk)
unfolding remove_path
removal_fails src k dry disk wet bad = rw (wet, bad) refl

removal_done :
    (src : Source) (k : Bytes) (dry : Bool) (disk : Map Node)
    → dry ≡ false
    → src.fails k ≡ false
    → (remove_path src k dry disk).0 ≡ none
unfolding remove_path
removal_done src k dry disk wet good = rw (wet, good) refl

still_there :
    (p : Bytes) (w : World) (st : PathState) → get p w.state ≡ none → get p w.state ≡ some st → ⊥
still_there p w st gone e = cc

-- What is recorded after the loop was recorded before, and of the paths that the loop went through
-- only those outside the root, and those that were seen.
abbrev IsSwept : Bytes → List Bytes → List Bytes → World → World → Type 0
IsSwept root seen paths w left =
    Shrinks w left
    × ((p : Bytes) (st : PathState)
        → In p paths
        → clean p ≡ p
        → get p left.state ≡ some st
        → (is_outside root p ≡ true) ⊎ (is_seen seen p ≡ true))

IsSwept-later :
    (root rel : Bytes) (seen paths : List Bytes) (w mid left : World)
    → Shrinks w mid
    → ((st : PathState)
        → clean rel ≡ rel
        → get rel mid.state ≡ some st
        → (is_outside root rel ≡ true) ⊎ (is_seen seen rel ≡ true))
    → IsSwept root seen paths mid left
    → IsSwept root seen (rel ∷ paths) w left
IsSwept-later root rel seen paths w mid left less_now here (shrinks, rest) = (
  λ p st h. less_now p st (shrinks p st h),
  λ p st member tidy h. elim member [
    | inl q ↦
        rw q (
          here st (ap clean (sym q) ∙ tidy ∙ q)
            (ap (λ k. get k mid.state) (sym q) ∙ shrinks p st h))
    | inr later ↦ rest p st later tidy h
  ],
)

module _ (s : Syncer) (src : Source) (root : Bytes) (seen : List Bytes)
    (wet : s.dry_run ≡ false) where
  remove_deleted_from-IsSwept :
      (paths : List Bytes) (w : World)
      → (remove_deleted_from s src root seen paths w).0 ≡ none
      → IsSwept root seen paths w (remove_deleted_from s src root seen paths w).1
  unfolding remove_deleted_from
  remove_deleted_from-IsSwept [] w = λ h. (λ p st e. e, λ p st member tidy e. elim member [ ])
  remove_deleted_from-IsSwept (rel ∷ rels) w =
      let go = remove_deleted_from-IsSwept rels w in
      let same : Shrinks w w = λ p st e. e in
      let skip : ((st : PathState)
            → clean rel ≡ rel
            → get rel w.state ≡ some st
            → (is_outside root rel ≡ true) ⊎ (is_seen seen rel ≡ true))
          → (remove_deleted_from s src root seen rels w).0 ≡ none
          → IsSwept root seen (rel ∷ rels) w (remove_deleted_from s src root seen rels w).1 =
        λ here h.
          IsSwept-later root rel seen rels w w (remove_deleted_from s src root seen rels w).1 same
            here (go h) in
      elim (Bool-cases (is_outside root rel)) [
        | inl out ↦ rw out (skip (λ st tidy e. inl out))
        | inr inside ↦ elim (Bool-cases (is_seen seen rel)) [
          | inl known ↦ rw (inside, known) (skip (λ st tidy e. inr known))
          | inr unseen ↦ elim (Bool-cases (has_state rel w)) [
            | inr gone ↦
                rw (inside, unseen, gone)
                  (skip (λ st tidy e. absurd (no_state rel w st gone tidy e)))
            | inl recorded ↦ elim (Bool-cases (escapes (clean rel))) [
              | inl escaping ↦ rw (inside, unseen, recorded, escaping) (λ h. absurd cc)
              | inr below ↦ elim (Bool-cases (src.fails (clean rel))) [
                | inl bad ↦
                    rw
                      (
                        inside,
                        unseen,
                        recorded,
                        below,
                        removal_fails src (clean rel) s.dry_run w.disk wet bad,
                      )
                      (λ h. absurd cc)
                | inr good ↦
                    let cut = record w {
                      disk = (remove_path src (clean rel) s.dry_run w.disk).1;
                    } in
                    let left = forget_state_tree s rel cut in
                    rw
                      (
                        inside,
                        unseen,
                        recorded,
                        below,
                        removal_done src (clean rel) s.dry_run w.disk wet good,
                      )
                      (λ h.
                        IsSwept-later root rel seen rels w left
                          (remove_deleted_from s src root seen rels left).1
                          (forget-Shrinks s rel cut wet)
                          (λ st tidy e.
                            absurd (still_there rel left st (forget-gone s rel cut wet tidy) e))
                          (remove_deleted_from-IsSwept rels left h))
              ]
            ]
          ]
        ]
      ]

-- Where the removal after a walk succeeds, outside a dry run, every path that is still recorded at or
-- under the walked root was seen in the walk, and nothing is recorded anew. The recorded paths are
-- cleaned.
pub remove_deleted-seen :
    (s : Syncer) (src : Source) (root : Bytes) (seen : List Bytes) (w : World)
    → s.dry_run ≡ false
    → ((p : Bytes) (st : PathState) → get p w.state ≡ some st → clean p ≡ p)
    → (remove_deleted_from_state_under s src root seen w).0 ≡ none
    → (p : Bytes) (st : PathState)
    → get p (remove_deleted_from_state_under s src root seen w).1.state ≡ some st
    → (get p w.state ≡ some st) × ((is_outside (clean root) p ≡ true) ⊎ (is_seen seen p ≡ true))
unfolding remove_deleted_from_state_under state_paths
remove_deleted-seen s src root seen w wet tidy done p st h =
    let (shrinks, swept) =
      remove_deleted_from-IsSwept s src (clean root) seen wet (sort_paths (keys w.state)) w done in
    let was = shrinks p st h in
    (was, swept p st (In-sort_paths p (keys w.state) (In-keys p w.state st was)) (tidy p st was) h)
