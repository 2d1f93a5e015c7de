-- ===== src/Netfin/Walk/Prune.antt =====
-- What the walk over the backup removes.

use dockerset.Base.{
  ◌≡◌, ◌≢◌, refl, ap, ◌∙◌, inl, inr, Bool, true, false, List, [], ◌∷◌, Option, none, some, arith,
  ◌===◌, ===_iff, Bool-cases, Bytes, All, In,
}
use dockerset.Go.Maps.{get, delete_if, get-delete_if}
use dockerset.Go.Path.{clean, dot}
use dockerset.Netfin.Disk.{Node, dir_node, file_node, SyncError, Source, in_tree}
use dockerset.Netfin.Filesync.{Syncer, World, PathState, forget_state_tree}
use dockerset.Netfin.Reconcile.{is_seen}
use dockerset.Netfin.Reconcile.Laws.{in_tree_refl}
use dockerset.Netfin.Walk.{forget_state, remove_unseen, prune_at, prune_from}

-- What one removal takes away
abbrev taken : Bytes → Node → Bytes → Bool
taken rel (dir_node m) p = in_tree rel p
taken rel (file_node m t c) p = rel === p

module _ (s : Syncer) (wet : s.dry_run ≡ false) where
  remove_unseen-taken :
      (rel : Bytes) (node : Node) (w : World)
      → clean rel ≡ rel
      → remove_unseen s rel node w ≡ record {
        state = delete_if (taken rel node) w.state;
        disk = delete_if (taken rel node) w.disk;
      }
  unfolding remove_unseen forget_state forget_state_tree
  remove_unseen-taken rel (dir_node m) w tidy = rw (wet, tidy) refl
  remove_unseen-taken rel (file_node m t c) w tidy = rw (wet, tidy) refl

taken_self : (rel : Bytes) (node : Node) → taken rel node rel ≡ true
taken_self rel (dir_node m) = in_tree_refl rel
taken_self rel (file_node m t c) = (===_iff rel rel).1 refl

-- Between two worlds paths were taken out of the state and the backup together, none of them seen.
pub record IsPruned (seen : List Bytes) (w left : World) : Type 0 where
  pub disk_shrinks : (p : Bytes) (n : Node) → get p left.disk ≡ some n → get p w.disk ≡ some n
  pub state_shrinks :
      (p : Bytes) (st : PathState) → get p left.state ≡ some st → get p w.state ≡ some st
  pub together :
      (p : Bytes) (st : PathState) (n : Node)
      → get p left.state ≡ some st
      → get p w.disk ≡ some n
      → get p left.disk ≡ some n
  pub kept : (p : Bytes) → is_seen seen p ≡ true → get p left.state ≡ get p w.state

abbrev without : Bytes → Node → World → World
without rel node w = record {
  state = delete_if (taken rel node) w.state;
  disk = delete_if (taken rel node) w.disk;
}

-- The directories above a path that was seen were seen.
abbrev pub IsClosed : List Bytes → Type 0
IsClosed seen = (p q : Bytes) → is_seen seen p ≡ true → in_tree q p ≡ true → is_seen seen q ≡ true

taken-seen :
    (seen : List Bytes) (rel : Bytes) (node : Node) (p : Bytes)
    → IsClosed seen
    → is_seen seen rel ≡ false
    → is_seen seen p ≡ true
    → taken rel node p ≡ false
taken-seen seen rel (dir_node m) p closed unseen here = elim (Bool-cases (in_tree rel p)) [
  | inr e ↦ e
  | inl e ↦ absurd (cc (closed p rel here e, unseen))
]
taken-seen seen rel (file_node m t c) p closed unseen here = elim (Bool-cases (rel === p)) [
  | inr e ↦ e
  | inl e ↦ absurd (cc (ap (is_seen seen) ((===_iff rel p).0 e), here, unseen))
]

without-IsPruned :
    (seen : List Bytes) (rel : Bytes) (node : Node) (w : World)
    → IsClosed seen
    → is_seen seen rel ≡ false
    → IsPruned seen w (without rel node w)
without-IsPruned seen rel node w closed unseen = record {
  disk_shrinks = λ p n h. ground (arith, h, get-delete_if (taken rel node) p w.disk);
  state_shrinks = λ p st h. ground (arith, h, get-delete_if (taken rel node) p w.state);
  together = λ p st n h e. ground (
    arith,
    h,
    e,
    get-delete_if (taken rel node) p w.state,
    get-delete_if (taken rel node) p w.disk,
  );
  kept = λ p here.
      get-delete_if (taken rel node) p w.state
      ∙ rw (taken-seen seen rel node p closed unseen here) refl;
}

IsPruned-trans :
    (seen : List Bytes) (a b c : World) → IsPruned seen a b → IsPruned seen b c → IsPruned seen a c
IsPruned-trans seen a b c f g = record {
  disk_shrinks = λ p n h. f.disk_shrinks p n (g.disk_shrinks p n h);
  state_shrinks = λ p st h. f.state_shrinks p st (g.state_shrinks p st h);
  together = λ p st n h e. g.together p st n h (f.together p st n (g.state_shrinks p st h) e);
  kept = λ p here. g.kept p here ∙ f.kept p here;
}

IsPruned-refl : (seen : List Bytes) (w : World) → IsPruned seen w w
IsPruned-refl seen w = record {
  disk_shrinks = λ p n h. h;
  state_shrinks = λ p st h. h;
  together = λ p st n h e. e;
  kept = λ p here. refl;
}

module _ (s : Syncer) (src : Source) (seen : List Bytes) (wet : s.dry_run ≡ false)
    (closed : IsClosed seen) where
  -- What the loop leaves: of the paths that it met, only those that were seen
  abbrev pub Leaves : List Bytes → World → World → Type 0
  Leaves paths w left =
      IsPruned seen w left
      × ((p : Bytes) (n : Node)
          → In p paths
          → p ≢ dot
          → get p left.disk ≡ some n
          → is_seen seen p ≡ true)

  Leaves-next :
      (path : Bytes) (paths : List Bytes) (w mid left : World)
      → IsPruned seen w mid
      → ((n : Node) → path ≢ dot → get path mid.disk ≡ some n → is_seen seen path ≡ true)
      → Leaves paths mid left
      → Leaves (path ∷ paths) w left
  Leaves-next path paths w mid left step here (pruned, rest) = (
    IsPruned-trans seen w mid left step pruned,
    λ p n member below h. elim member [
      | inl q ↦ rw q (here n (rw q at below) (pruned.disk_shrinks path n (rw q at h)))
      | inr later ↦ rest p n later below h
    ],
  )

  prune_at-Leaves :
      (path : Bytes) (paths : List Bytes) (w : World) (next : World → Option SyncError × World)
      (o : Option Node)
      → get path w.disk ≡ o
      → clean path ≡ path
      → ((w1 : World) → (next w1).0 ≡ none → Leaves paths w1 (next w1).1)
      → (prune_at s src seen path w next o).0 ≡ none
      → Leaves (path ∷ paths) w (prune_at s src seen path w next o).1
  prune_at-Leaves path paths w next none e tidy ih = λ h.
      Leaves-next path paths w w (next w).1 (IsPruned-refl seen w)
        (λ n below at. absurd (cc (e, at))) (ih w h)
  prune_at-Leaves path paths w next (some node) e tidy ih = elim (Bool-cases (path === dot)) [
    | inl top ↦ rw top (λ h.
        Leaves-next path paths w w (next w).1 (IsPruned-refl seen w)
          (λ n below at. absurd (below ((===_iff path dot).0 top))) (ih w h))
    | inr below ↦ elim (Bool-cases (is_seen seen path)) [
      | inl known ↦
          rw (below, tidy, known)
            (λ h.
              Leaves-next path paths w w (next w).1 (IsPruned-refl seen w) (λ n b at. known)
                (ih w h))
      | inr unseen ↦ elim (Bool-cases (src.fails path)) [
        | inl bad ↦ rw (below, tidy, unseen, bad) (λ h. absurd cc)
        | inr good ↦
            let mid = without path node w in
            let gone : get path mid.disk ≡ none =
              get-delete_if (taken path node) path w.disk ∙ rw (taken_self path node) refl in
            rw (below, tidy, unseen, good, remove_unseen-taken s wet path node w tidy)
              (λ h.
                Leaves-next path paths w mid (next mid).1
                  (without-IsPruned seen path node w closed unseen)
                  (λ n b at. absurd (cc (gone, at))) (ih mid h))
      ]
    ]
  ]

  pub prune_from-Leaves :
      (paths : List Bytes) (w : World)
      → All (λ p. clean p ≡ p) paths
      → (prune_from s src seen paths w).0 ≡ none
      → Leaves paths w (prune_from s src seen paths w).1
  unfolding prune_from
  prune_from-Leaves [] w tidy = λ h. (IsPruned-refl seen w, λ p n member below e. elim member [ ])
  prune_from-Leaves (path ∷ paths) w (tidy, others) = λ h.
      prune_at-Leaves path paths w (λ w1. prune_from s src seen paths w1) (get path w.disk) refl
        tidy (λ w1 h1. prune_from-Leaves paths w1 others h1) h
