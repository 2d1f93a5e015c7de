-- ===== src/Netfin/Config/Dedupe.antt =====
-- What `dedupe` keeps.
use dockerset.Base.{
  ◌≡◌, refl, sym, ◌↔◌, inl, inr, Bool, true, false, ◌||◌, List, [], ◌∷◌, map, ◌==◌, ◌===◌, ===_iff,
  Bytes, length, any, In, Bool-cases,
}
use dockerset.Go.Text.{trim_space}
use dockerset.Netfin.Config.{dedupe, dedupe_from}

-- `x` is one of the texts in `seen`.
abbrev has : List Bytes → Bytes → Bool
has seen x = any (λ s. s === x) seen

-- What stands in the list
abbrev Kept : List Bytes → List Bytes → Bytes → Type 0
Kept seen values x = In x (map trim_space values) × ((length x == 0) ≡ false) × (has seen x ≡ false)

or_false : (a b : Bool) → (a || b) ≡ false → (a ≡ false) × (b ≡ false)
or_false false b h = (refl, h)
or_false true b h = cc

-- `dedupe` skips the value `v`.
abbrev skips : List Bytes → Bytes → Bool
skips seen v = length v == 0 || has seen v

dedupe_from-Kept :
    (seen values : List Bytes) (x : Bytes) → In x (dedupe_from seen values) → Kept seen values x
unfolding dedupe_from any
dedupe_from-Kept seen [] x m = absurd m
dedupe_from-Kept seen (value ∷ values) x m = elim (Bool-cases (skips seen (trim_space value))) [
  | inl skip ↦
      let (there, full, fresh) = dedupe_from-Kept seen values x (rw skip at m) in
      (inr there, full, fresh)
  | inr new ↦
      let (full, fresh) =
        or_false (length (trim_space value) == 0) (has seen (trim_space value)) new in
      elim (rw new at m) [
        | inl e ↦ (inl e, rw e full, rw e fresh)
        | inr later ↦
            let (there, full, fresh) = dedupe_from-Kept (trim_space value ∷ seen) values x later in
            (inr there, full, (or_false (trim_space value === x) (has seen x) fresh).1)
      ]
]

Kept-dedupe_from :
    (seen values : List Bytes) (x : Bytes) → Kept seen values x → In x (dedupe_from seen values)
unfolding dedupe_from any
Kept-dedupe_from seen [] x h = absurd h.0
Kept-dedupe_from seen (value ∷ values) x (m, full, fresh) =
    let v = trim_space value in
    elim (Bool-cases (skips seen v)) [
      | inl skip ↦ elim m [
        | inl e ↦ absurd (let plain : skips seen v ≡ false = rw (sym e, full, fresh) refl in cc)
        | inr there ↦ rw skip (Kept-dedupe_from seen values x (there, full, fresh))
      ]
      | inr new ↦ elim (Bool-cases (v === x)) [
        | inl same ↦ rw new (inl (sym ((===_iff v x).0 same)))
        | inr other ↦ elim m [
          | inl e ↦ absurd (let same : (v === x) ≡ true = (===_iff v x).1 (sym e) in cc)
          | inr there ↦
              rw new (inr (Kept-dedupe_from (v ∷ seen) values x (there, full, rw other fresh)))
        ]
      ]
    ]

-- No text stands twice in the list.
abbrev pub IsNub : List Bytes → Type 0
IsNub [] = Unit
IsNub (x ∷ xs) = ((y : Bytes) → In y xs → (x === y) ≡ false) × IsNub xs

dedupe_from-IsNub : (seen values : List Bytes) → IsNub (dedupe_from seen values)
unfolding dedupe_from any
dedupe_from-IsNub seen [] = tt
dedupe_from-IsNub seen (value ∷ values) =
    let v = trim_space value in
    elim (Bool-cases (skips seen v)) [
      | inl skip ↦ rw skip (dedupe_from-IsNub seen values)
      | inr new ↦ rw new (
        λ y m.
            (let (there, full, fresh) = dedupe_from-Kept (v ∷ seen) values y m in
              (or_false (v === y) (has seen y) fresh).0),
        dedupe_from-IsNub (v ∷ seen) values,
      )
    ]

-- No text stands twice in the list that `dedupe` returns, and a text is in it where it is not empty and is
-- one of the texts that are given, without the space around it.
pub dedupe-In :
    (values : List Bytes)
    → IsNub (dedupe values)
      × ((x : Bytes)
          → In x (dedupe values) ↔ (In x (map trim_space values) × ((length x == 0) ≡ false)))
dedupe-In values = (
  dedupe_from-IsNub [] values,
  λ x. (
    λ m. let (there, full, fresh) = dedupe_from-Kept [] values x m in (there, full),
    λ h. Kept-dedupe_from [] values x (unfold any in (h.0, h.1, refl)),
  ),
)
