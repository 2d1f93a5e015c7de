-- ===== src/Base/Outcomes.antt =====
-- What a run of Go code ends in, and the checked accesses to a byte slice.
use Prim.Native.Nat.{ℕ, zero, suc, ◌+◌, ◌-◌, ◌*◌, ◌≤◌, ◌<◌}
use mathlib.Core.Path.{◌≡◌, refl, ◌∙◌}
use mathlib.Core.Bool.{◌&&◌}
use mathlib.Core.List.{List, [], ◌∷◌, ◌++◌}
use native.Mathlib.Omega.{arith}
use dockerset.Base.Tests.{leb, if◌then◌else◌}
use dockerset.Base.Lists.{Bytes, length, take, drop, take-append, drop-append, length-append}

-- `panic` is a run-time panic. `stuck` is no Go value: a loop of the model ran out of fuel.
pub data Outcome (E A : Type 0) : Type 0 where
  ok : A → Outcome E A
  err : E → Outcome E A
  panic stuck : Outcome E A

infixl 5 ◌>>=◌
abbrev pub ◌>>=◌ : {E A B : Type 0} → Outcome E A → (A → Outcome E B) → Outcome E B
ok a >>= f = f a
err e >>= f = err e
panic >>= f = panic
stuck >>= f = stuck

-- The code returned, with a value or with an error.
abbrev pub Returns : {E A : Type 0} → Outcome E A → Type 0
Returns (ok a) = Unit
Returns (err e) = Unit
Returns panic = ⊥
Returns stuck = ⊥

-- The code returned a value.
abbrev pub Succeeds : {E A : Type 0} → Outcome E A → Type 0
Succeeds (ok a) = Unit
Succeeds (err e) = ⊥
Succeeds panic = ⊥
Succeeds stuck = ⊥

module _ {E A B : Type 0} where
  pub Returns-bind :
      (m : Outcome E A) (f : A → Outcome E B)
      → Returns m
      → ((a : A) → Returns (f a))
      → Returns (m >>= f)
  Returns-bind (ok a) f h k = k a
  Returns-bind (err e) f h k = tt
  Returns-bind panic f h k = h
  Returns-bind stuck f h k = h

  pub Succeeds-bind :
      (m : Outcome E A) (f : A → Outcome E B)
      → Succeeds m
      → ((a : A) → Succeeds (f a))
      → Succeeds (m >>= f)
  Succeeds-bind (ok a) f h k = k a
  Succeeds-bind (err e) f h k = absurd h
  Succeeds-bind panic f h k = h
  Succeeds-bind stuck f h k = h

-- Inversion of a bind that returned a value.
pub bind-eq-ok :
    {E A B : Type 0} (m : Outcome E A) (f : A → Outcome E B) {b : B}
    → (m >>= f) ≡ ok b
    → (a : A) × (m ≡ ok a) × (f a ≡ ok b)
bind-eq-ok (ok a) f h = (a, refl, h)
bind-eq-ok (err e) f h = cc
bind-eq-ok panic f h = cc
bind-eq-ok stuck f h = cc

pub ok-injective : {E A : Type 0} {a b : A} → ◌≡◌ {A = Outcome E A} (ok a) (ok b) → a ≡ b
ok-injective h = cc

module _ {E : Type 0} where
  -- b[i]
  unfoldable pub index : {A : Type 0} → List A → ℕ → Outcome E A
  index [] i = panic
  index (x ∷ xs) zero = ok x
  index (x ∷ xs) (suc i) = index xs i

  -- b[i:j]; the guards of the program never go past the length into the capacity.
  unfoldable pub slice : Bytes → ℕ → ℕ → Outcome E Bytes
  slice b i j = if leb i j && leb j (length b) then ok (take (j - i) (drop i b)) else panic

  -- binary.BigEndian.Uint16(b[i : i+2])
  unfoldable pub uint16 : Bytes → ℕ → Outcome E ℕ
  uint16 b i = do hi ← index b i; lo ← index b (i + 1); ok (hi * 256 + lo)

  pub index_lt : {A : Type 0} (b : List A) (i : ℕ) → i < length b → (x : A) × (index b i ≡ ok x)
  unfolding index
  index_lt [] i h = absurd (omega arith)
  index_lt (x ∷ xs) zero h = (x, refl)
  index_lt (x ∷ xs) (suc i) h = index_lt xs i (omega arith)

  pub index-append :
      {A : Type 0} (xs ys : List A) (i j : ℕ) → j ≡ length xs + i → index (xs ++ ys) j ≡ index ys i
  unfolding index
  index-append [] ys i j h = let e : j ≡ i = omega arith in rw e
  index-append (x ∷ xs) ys i zero h = absurd (omega arith)
  index-append (x ∷ xs) ys i (suc j) h = index-append xs ys i j (omega arith)

  pub slice_le :
      (b : Bytes) (i j : ℕ) → i ≤ j → j ≤ length b → slice b i j ≡ ok (take (j - i) (drop i b))
  unfolding slice
  slice_le b i j h k = ground arith

  pub uint16_lt : (b : Bytes) (i : ℕ) → i + 1 < length b → (x : ℕ) × (uint16 b i ≡ ok x)
  unfolding uint16
  uint16_lt b i h =
      let (x, e) = index_lt b i (omega arith) in
      let (y, e') = index_lt b (i + 1) h in (x * 256 + y, rw (e, e'))

  -- The slice that stands between two known parts.
  pub slice-append :
      (xs ys zs : Bytes) (i j : ℕ)
      → i ≡ length xs
      → j ≡ length xs + length ys
      → slice (xs ++ (ys ++ zs)) i j ≡ ok ys
  slice-append xs ys zs i j h k =
      slice_le _ i j (omega arith) (omega (arith, length-append xs (ys ++ zs), length-append ys zs))
      ∙ rw (drop-append xs (ys ++ zs) i h, take-append ys zs (j - i) (omega arith))
