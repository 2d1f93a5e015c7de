-- ===== src/Netfin/Walk/States.antt =====
-- What the loop of `Reconcile` records of an entry.
use dockerset.Base.{
  ℕ, ◌≡◌, ◌≢◌, refl, inl, inr, true, false, List, [], ◌∷◌, some, arith, ◌===◌, ===_iff,
  if◌then◌else◌, Bool-cases, Bytes, All,
}
use dockerset.Go.Maps.{get}
use dockerset.Go.Path.{clean}
use dockerset.Netfin.Filesync.{
  World, PathState, path_kind_dir, path_kind_file, path_state_from_info, PathKind, same_kind,
  same_state,
}
use dockerset.Netfin.Walk.Visits.{Visit}

-- What is recorded of an entry that is backed up, from what the source says of it
abbrev pub state_of : Visit → PathState
state_of v = path_state_from_info (if v.is_dir then path_kind_dir else path_kind_file) v.info

-- This state is recorded at the path.
abbrev pub Records : Bytes → PathState → World → Type 0
Records k st w = get k w.state ≡ some st

-- Other paths have the same record as before.
abbrev pub Keeps : Bytes → World → World → Type 0
Keeps k w w' = (p : Bytes) → k ≢ p → get p w'.state ≡ get p w.state

-- No path stands twice.
abbrev pub AreDistinct : List Visit → Type 0
AreDistinct [] = Unit
AreDistinct (v ∷ vs) = All (λ u. clean u.path ≢ clean v.path) vs × AreDistinct vs

same_kind-eq : (a b : PathKind) → same_kind a b ≡ true → a ≡ b
same_kind-eq path_kind_dir path_kind_dir h = refl
same_kind-eq path_kind_file path_kind_file h = refl
same_kind-eq path_kind_dir path_kind_file h = absurd cc
same_kind-eq path_kind_file path_kind_dir h = absurd cc

abbrev state_with : PathKind → ℕ → ℕ → ℕ → PathState
state_with kind mode size mod_time = record {
  kind = kind;
  mode = mode;
  size = size;
  mod_time = mod_time;
}

pub same_state-eq : (a b : PathState) → same_state a b ≡ true → a ≡ b
same_state-eq a b h =
    let kind : a.kind ≡ b.kind = same_kind-eq a.kind b.kind (ground (arith, h)) in
    let mode : a.mode ≡ b.mode = ground (arith, h) in
    let size : a.size ≡ b.size = ground (arith, h) in
    let time : a.mod_time ≡ b.mod_time = ground (arith, h) in cc (kind, mode, size, time)

pub unequal : (k p : Bytes) → k ≢ p → (k === p) ≡ false
unequal k p apart = elim (Bool-cases (k === p)) [
  | inl same ↦ absurd (apart ((===_iff k p).0 same))
  | inr different ↦ different
]
