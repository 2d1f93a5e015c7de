-- ===== src/Go/Maps.antt =====
-- A Go map with string keys, as an association list; the order of iteration is the list's.
use dockerset.Base.{
  In, sym, ◌≡◌, refl, ap, Bool, List, [], ◌∷◌, Option, none, some, ◌===◌, ===_iff, if◌then◌else◌,
  Bytes, arith, Bool-cases, inl, inr,
}

abbrev pub Map : Type 0 → Type 0
Map V = List (Bytes × V)

module _ {V : Type 0} where
  -- v, ok := m[k]
  unfoldable pub get : Bytes → Map V → Option V
  get k [] = none
  get k ((j, v) ∷ m) = if j === k then some v else get k m

  -- m[k] = v
  unfoldable pub put : Bytes → V → Map V → Map V
  put k v [] = (k, v) ∷ []
  put k v ((j, w) ∷ m) = if j === k then (j, v) ∷ m else (j, w) ∷ put k v m

  -- delete(m, k) at every key that passes the test
  unfoldable pub delete_if : (Bytes → Bool) → Map V → Map V
  delete_if p [] = []
  delete_if p ((j, v) ∷ m) = let rest = delete_if p m in if p j then rest else (j, v) ∷ rest

  unfoldable pub keys : Map V → List Bytes
  keys [] = []
  keys ((j, v) ∷ m) = j ∷ keys m

  pub get-put :
      (k j : Bytes) (v : V) (m : Map V) → get j (put k v m) ≡ (if k === j then some v else get j m)
  unfolding get put
  get-put k j v [] = refl
  get-put k j v ((i, w) ∷ m) =
      ground (arith, ===_iff k j, ===_iff i k, ===_iff i j, get-put k j v m)

  pub get-delete_if :
      (p : Bytes → Bool) (k : Bytes) (m : Map V)
      → get k (delete_if p m) ≡ (if p k then none else get k m)
  unfolding get delete_if
  get-delete_if p k [] = ground arith
  get-delete_if p k ((j, v) ∷ m) = elim (Bool-cases (j === k)) [
    | inl e ↦
        let same : j ≡ k = (===_iff j k).0 e in
        let both : p j ≡ p k = ap p same in ground (arith, get-delete_if p k m)
    | inr e ↦ ground (arith, get-delete_if p k m)
  ]

  pub In-keys : (k : Bytes) (m : Map V) (v : V) → get k m ≡ some v → In k (keys m)
  unfolding get keys
  In-keys k [] v h = absurd cc
  In-keys k ((j, w) ∷ m) v h = elim (Bool-cases (j === k)) [
    | inl e ↦ inl (sym ((===_iff j k).0 e))
    | inr e ↦ inr (In-keys k m v (rw e at h))
  ]
