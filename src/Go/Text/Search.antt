-- ===== src/Go/Text/Search.antt =====
-- `strings.HasPrefix` and `strings.Contains`, by the bytes around what they find.
use dockerset.Base.{
  ◌≡◌, refl, ap, ◌↔◌, inl, inr, true, false, [], ◌∷◌, ◌++◌, ◌==◌, Bytes, Bool-cases, Option-cases,
  ==_iff,
}
use dockerset.Go.Text.{has_prefix, index_of, contains}

abbrev pub Begins : Bytes → Bytes → Type 0
Begins s p = (rest : Bytes) × (s ≡ p ++ rest)

abbrev pub Occurs : Bytes → Bytes → Type 0
Occurs s sub = (before : Bytes) × (after : Bytes) × (s ≡ before ++ (sub ++ after))

has_prefix-Begins : (s p : Bytes) → has_prefix s p ≡ true → Begins s p
unfolding has_prefix
has_prefix-Begins s [] h = (s, refl)
has_prefix-Begins [] (p ∷ ps) h = absurd cc
has_prefix-Begins (c ∷ s) (p ∷ ps) h = elim (Bool-cases (c == p)) [
  | inl same ↦
      let (rest, e) = has_prefix-Begins s ps (rw same at h) in
      let q : c ≡ p = (==_iff c p).0 same in (rest, rw (q, e) refl)
  | inr other ↦ let no : false ≡ true = rw other at h in absurd cc
]

begun : (p rest : Bytes) → has_prefix (p ++ rest) p ≡ true
unfolding has_prefix
begun [] rest = refl
begun (c ∷ p) rest = rw ((==_iff c c).1 refl) (begun p rest)

pub has_prefix_iff : (s p : Bytes) → (has_prefix s p ≡ true) ↔ Begins s p
has_prefix_iff s p = (has_prefix-Begins s p, λ b. let (rest, e) = b in rw e (begun p rest))

contains-Occurs : (s sub : Bytes) → contains s sub ≡ true → Occurs s sub
unfolding contains index_of
contains-Occurs [] [] h = ([], [], refl)
contains-Occurs [] (c ∷ sub) h = absurd cc
contains-Occurs (c ∷ s) sub h = elim (Bool-cases (has_prefix (c ∷ s) sub)) [
  | inl here ↦ let (rest, e) = has_prefix-Begins (c ∷ s) sub here in ([], rest, e)
  | inr later ↦
      let there : contains s sub ≡ true = elim (Option-cases (index_of s sub)) [
        | inl gone ↦ let no : false ≡ true = rw (later, gone, contains, index_of) at h in absurd cc
        | inr (i, e) ↦ rw (e, contains) refl
      ] in
      let (before, after, e) = contains-Occurs s sub there in (c ∷ before, after, ap (◌∷◌ c) e)
]

occurring : (before sub after : Bytes) → contains (before ++ (sub ++ after)) sub ≡ true
unfolding contains index_of has_prefix
occurring [] [] [] = refl
occurring [] [] (c ∷ after) = refl
occurring [] (c ∷ sub) after = rw (begun (c ∷ sub) after, contains) refl
occurring (c ∷ before) sub after =
    elim (Bool-cases (has_prefix (c ∷ before ++ (sub ++ after)) sub)) [
      | inl here ↦ rw (here, contains) refl
      | inr later ↦ elim (Option-cases (index_of (before ++ (sub ++ after)) sub)) [
        | inl gone ↦
            let no : false ≡ true = rw (gone, contains) at (occurring before sub after) in absurd cc
        | inr (i, e) ↦ rw (later, e, contains) refl
      ]
    ]

pub contains_iff : (s sub : Bytes) → (contains s sub ≡ true) ↔ Occurs s sub
contains_iff s sub =
    (contains-Occurs s sub, λ o. let (before, after, e) = o in rw e (occurring before sub after))
