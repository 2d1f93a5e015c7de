-- ===== src/Go/Text/Laws.antt =====
-- Laws of the text functions.
use dockerset.Base.{
  ℕ, suc, ◌≡◌, ◌≢◌, refl, ap, ◌∙◌, false, inl, inr, List, [], ◌∷◌, ◌++◌, arith, ◌==◌, ==_iff,
  Bool-cases, if◌then◌else◌, Bytes, length, All, ◌&&◌, Bool, true,
}
use dockerset.Go.Text.{
  lower, to_lower, split, join, cons_first, trim_right, trim_left, trim_space, is_empty, is_space,
}

pub split-ne-nil : (s : Bytes) (sep : ℕ) → split s sep ≢ []
unfolding split
split-ne-nil [] sep = λ e. cc
split-ne-nil (x ∷ s) sep =
    elim (split s sep) as (λ r. (if x == sep then [] ∷ r else cons_first x r) ≢ []) [
      | [] ↦ ground arith
      | p ∷ ps ↦ ground arith
    ]

join-cons_first : (x : ℕ) (ps : List Bytes) (sep : ℕ) → join (cons_first x ps) sep ≡ x ∷ join ps sep
unfolding join
join-cons_first x [] sep = refl
join-cons_first x (p ∷ []) sep = refl
join-cons_first x (p ∷ q ∷ ps) sep = refl

join-nil-cons : (ps : List Bytes) (sep : ℕ) → ps ≢ [] → join ([] ∷ ps) sep ≡ sep ∷ join ps sep
unfolding join
join-nil-cons [] sep h = absurd (h refl)
join-nil-cons (p ∷ ps) sep h = refl

-- Joining what was split gives the text back.
pub join-split : (s : Bytes) (sep : ℕ) → join (split s sep) sep ≡ s
unfolding split
join-split [] sep = unfold join in refl
join-split (x ∷ s) sep = elim (Bool-cases (x == sep)) [
  | inl e ↦ rw e (
      join-nil-cons (split s sep) sep (split-ne-nil s sep)
      ∙ (rw (join-split s sep, (==_iff x sep).0 e)))
  | inr e ↦ rw e (join-cons_first x (split s sep) sep ∙ ap (◌∷◌ x) (join-split s sep))
]

pub length-to_lower : (s : Bytes) → length (to_lower s) ≡ length s
length-to_lower [] = refl
length-to_lower (c ∷ s) = ap suc (length-to_lower s)

pub lower_idem : (c : ℕ) → lower (lower c) ≡ lower c
unfolding lower
lower_idem c = ground arith

pub to_lower_idem : (s : Bytes) → to_lower (to_lower s) ≡ to_lower s
to_lower_idem [] = refl
to_lower_idem (c ∷ s) = cc (lower_idem c, to_lower_idem s)

-- A text without the separator is one part.
pub split_one : (s : Bytes) (sep : ℕ) → All (λ c. (c == sep) ≡ false) s → split s sep ≡ s ∷ []
unfolding split
split_one [] sep h = refl
split_one (c ∷ s) sep h = rw (h.0, split_one s sep h.1)

-- A part without the separator stands first.
pub split-append :
    (s rest : Bytes) (sep : ℕ)
    → All (λ c. (c == sep) ≡ false) s
    → split (s ++ (sep ∷ rest)) sep ≡ s ∷ split rest sep
unfolding split
split-append [] rest sep h = rw (==_iff sep sep).1 refl
split-append (c ∷ s) rest sep h = rw (h.0, split-append s rest sep h.1)

pub and_false : (b : Bool) → (b && false) ≡ false
and_false true = refl
and_false false = refl

pub is_empty-append : (s p : Bytes) → is_empty p ≡ false → is_empty (s ++ p) ≡ false
is_empty-append [] p full = full
is_empty-append (c ∷ s) p full = refl

pub trim_right-append :
    (s p : Bytes) → trim_right p ≡ p → is_empty p ≡ false → trim_right (s ++ p) ≡ s ++ p
unfolding trim_right
trim_right-append [] p same full = same
trim_right-append (c ∷ s) p same full =
    rw (trim_right-append s p same full, is_empty-append s p full, and_false (is_space c)) refl

pub trim_space-append :
    (a : ℕ) (u p : Bytes)
    → is_space a ≡ false
    → trim_right p ≡ p
    → is_empty p ≡ false
    → trim_space ((a ∷ u) ++ p) ≡ (a ∷ u) ++ p
unfolding trim_space trim_left
trim_space-append a u p no_space same full = rw no_space (trim_right-append (a ∷ u) p same full)

cons_first-append :
    (c : ℕ) (ps qs : List Bytes) → ps ≢ [] → cons_first c (ps ++ qs) ≡ cons_first c ps ++ qs
cons_first-append c [] qs full = absurd (full refl)
cons_first-append c (p ∷ ps) qs full = refl

pub split-split :
    (front rest : Bytes) (sep : ℕ)
    → split (front ++ (sep ∷ rest)) sep ≡ split front sep ++ split rest sep
unfolding split
split-split [] rest sep = rw ((==_iff sep sep).1 refl) refl
split-split (c ∷ front) rest sep = elim (Bool-cases (c == sep)) [
  | inl here ↦ rw here (ap (λ (x : List Bytes). [] ∷ x) (split-split front rest sep))
  | inr other ↦ rw other (
      ap (cons_first c) (split-split front rest sep)
      ∙ cons_first-append c (split front sep) (split rest sep) (split-ne-nil front sep))
]
