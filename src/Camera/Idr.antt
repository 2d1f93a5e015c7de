-- ===== src/Camera/Idr.antt =====
-- `containsH264IDR` of creality-discovery/camera.go.
use dockerset.Base.{
  ℕ, ◌%◌, ◌≡◌, ◌↔◌, refl, inl, inr, Bool, true, false, not, ◌&&◌, ◌||◌, [], ◌∷◌, ◌++◌, Bytes,
  length, ◌==◌, if◌then◌else◌, arith, ◌⊎◌, ◌<◌, Bool-cases,
}

-- `b&0x1F == 5`: the unit that starts with this byte is one of an IDR picture.
abbrev pub is_idr : ℕ → Bool
is_idr b = b % 32 == 5

-- The body of the loop at a place, from the bytes there on
unfoldable pub idr_at : Bytes → Bool
idr_at (b0 ∷ b1 ∷ b2 ∷ b3 ∷ b4 ∷ rest) =
    if not (b0 == 0) || not (b1 == 0)
    then false
    else if b2 == 1
    then is_idr b3
    else if not (length rest == 0) && b2 == 0 && b3 == 1
    then is_idr b4
    else false
idr_at _ = false

unfoldable pub contains_h264_idr : Bytes → Bool
unfolding idr_at
contains_h264_idr [] = false
contains_h264_idr (b ∷ bs) = idr_at (b ∷ bs) || contains_h264_idr bs

-- A start code, the first byte of a unit of an IDR picture, and one more byte stand in the bytes.
pub HasIdr : Bytes → Type 0
HasIdr b =
    (before : Bytes) × (unit : ℕ) × (next : ℕ) × (after : Bytes) × (b
      ≡ before ++ (0 ∷ 0 ∷ 1 ∷ unit ∷ next ∷ after))
    × (unit % 32 ≡ 5)

or_true : (a : Bool) → (a || true) ≡ true
or_true true = refl
or_true false = refl

later-HasIdr : (b : ℕ) (bs : Bytes) → HasIdr bs → HasIdr (b ∷ bs)
unfolding HasIdr
later-HasIdr b bs (before, unit, next, after, e, idr) =
    (b ∷ before, unit, next, after, rw e refl, idr)

-- What the body of the loop has seen: the longer start code is a shorter one a place later.
idr_at-codes :
    (b0 b1 b2 b3 b4 : ℕ) (rest : Bytes)
    → idr_at (b0 ∷ b1 ∷ b2 ∷ b3 ∷ b4 ∷ rest) ≡ true
    → ((b0 ≡ 0) × (b1 ≡ 0) × (b2 ≡ 1) × (b3 % 32 ≡ 5))
      ⊎ ((b1 ≡ 0) × (b2 ≡ 0) × (b3 ≡ 1) × (b4 % 32 ≡ 5) × (0 < length rest))
unfolding idr_at
idr_at-codes b0 b1 b2 b3 b4 rest h = ground (arith, h)

idr_at-HasIdr : (b : Bytes) → idr_at b ≡ true → HasIdr b
unfolding idr_at HasIdr
idr_at-HasIdr (b0 ∷ b1 ∷ b2 ∷ b3 ∷ b4 ∷ []) h = elim (idr_at-codes b0 b1 b2 b3 b4 [] h) [
  | inl (e0, e1, e2, idr) ↦ ([], b3, b4, [], rw (e0, e1, e2) refl, idr)
  | inr (e1, e2, e3, idr, more) ↦ absurd (omega arith)
]
idr_at-HasIdr (b0 ∷ b1 ∷ b2 ∷ b3 ∷ b4 ∷ b5 ∷ rest) h =
    elim (idr_at-codes b0 b1 b2 b3 b4 (b5 ∷ rest) h) [
      | inl (e0, e1, e2, idr) ↦ ([], b3, b4, b5 ∷ rest, rw (e0, e1, e2) refl, idr)
      | inr (e1, e2, e3, idr, more) ↦ (b0 ∷ [], b4, b5, rest, rw (e1, e2, e3) refl, idr)
    ]
idr_at-HasIdr _ h = absurd (ground (arith, h))

idr_at_start :
    (unit next : ℕ) (after : Bytes)
    → unit % 32 ≡ 5
    → idr_at (0 ∷ 0 ∷ 1 ∷ unit ∷ next ∷ after) ≡ true
unfolding idr_at
idr_at_start unit next after idr = rw idr refl

placed-contains :
    (before : Bytes) (unit next : ℕ) (after : Bytes)
    → unit % 32 ≡ 5
    → contains_h264_idr (before ++ (0 ∷ 0 ∷ 1 ∷ unit ∷ next ∷ after)) ≡ true
unfolding contains_h264_idr
placed-contains [] unit next after idr = rw (idr_at_start unit next after idr) refl
placed-contains (b ∷ before) unit next after idr =
    rw (placed-contains before unit next after idr)
      (or_true (idr_at (b ∷ (before ++ (0 ∷ 0 ∷ 1 ∷ unit ∷ next ∷ after)))))

found-HasIdr : (b : Bytes) → contains_h264_idr b ≡ true → HasIdr b
unfolding contains_h264_idr
found-HasIdr [] h = absurd (ground (arith, h))
found-HasIdr (b ∷ bs) h = elim (Bool-cases (idr_at (b ∷ bs))) [
  | inl here ↦ idr_at-HasIdr (b ∷ bs) here
  | inr elsewhere ↦ later-HasIdr b bs (found-HasIdr bs (rw (elsewhere, contains_h264_idr) at h))
]

-- `containsH264IDR` finds exactly the bytes that hold a start code, the first byte of a unit of an IDR
-- picture, and one more byte: its cases of a longer and a shorter start code come to one.
pub contains_h264_idr-HasIdr : (b : Bytes) → (contains_h264_idr b ≡ true) ↔ HasIdr b
unfolding HasIdr
contains_h264_idr-HasIdr b = (
  found-HasIdr b,
  λ h.
      let (before, unit, next, after, e, idr) = h in
      rw e (placed-contains before unit next after idr),
)
