-- ===== src/Go/Glob.antt =====
-- filepath.Match: `*` and `?` match no separator, `[...]` is a class, `\` takes the next byte as it is.
-- A malformed pattern matches nothing (the error that Go returns beside `false` is dropped by netfin).
pub mod Plain
use dockerset.Base.{
  ℕ, zero, suc, Bool, true, false, not, ◌&&◌, ◌||◌, List, [], ◌∷◌, Option, none, some, leb, ◌==◌,
  if◌then◌else◌, Bytes, length, ◌+◌,
}

pub data Token : Type 0 where
  lit : ℕ → Token
  any_one star : Token
  class : Bool → List (ℕ × ℕ) → Token

-- getEsc: one end of a range
abbrev get_esc : Bytes → Option (ℕ × Bytes)
get_esc [] = none
get_esc (c ∷ []) = if c == b'-' || c == b']' || c == b'\\' then none else some (c, [])
get_esc (c ∷ d ∷ s) =
    if c == b'-' || c == b']' then none else if c == b'\\' then some (d, s) else some (c, d ∷ s)

-- What stands behind the low end of a range
abbrev high_end : ℕ → Bytes → Option ((ℕ × ℕ) × Bytes)
high_end lo [] = some ((lo, lo), [])
high_end lo (c ∷ s) =
    if c == b'-'
    then elim (get_esc s) [ none ↦ none | some (hi, rest) ↦ some ((lo, hi), rest) ]
    else some ((lo, lo), c ∷ s)

-- The ranges up to `]`; there is one at least. Each takes a byte, so the length is fuel enough.
unfoldable pub ranges : ℕ → Bytes → List (ℕ × ℕ) → Option (List (ℕ × ℕ) × Bytes)
ranges zero s acc = none
ranges (suc fuel) [] acc = none
ranges (suc fuel) (c ∷ s) acc =
    if c == b']' && not (length acc == 0) then some (acc, s) else elim (get_esc (c ∷ s)) [
      | none ↦ none
      | some (lo, rest) ↦ elim (high_end lo rest) [
        | none ↦ none
        | some (range, later) ↦ ranges fuel later (range ∷ acc)
      ]
    ]

abbrev class_of : ℕ → Bytes → Option (Token × Bytes)
class_of fuel [] = none
class_of fuel (c ∷ s) =
    if c == b'^'
    then elim (ranges fuel s []) [ none ↦ none | some (rs, rest) ↦ some (class true rs, rest) ]
    else elim (ranges fuel (c ∷ s) []) [
      | none ↦ none
      | some (rs, rest) ↦ some (class false rs, rest)
    ]

unfoldable pub token : ℕ → ℕ → Bytes → Option (Token × Bytes)
unfolding ranges
token fuel c [] =
    if c == b'*'
    then some (star, [])
    else if c == b'?'
    then some (any_one, [])
    else if c == b'[' || c == b'\\'
    then none
    else some (lit c, [])
token fuel c (d ∷ s) =
    if c == b'*'
    then some (star, d ∷ s)
    else if c == b'?'
    then some (any_one, d ∷ s)
    else if c == b'['
    then class_of fuel (d ∷ s)
    else if c == b'\\'
    then some (lit d, s)
    else some (lit c, d ∷ s)

unfoldable pub tokens : ℕ → Bytes → Option (List Token)
unfolding token
tokens fuel [] = some []
tokens zero (c ∷ s) = none
tokens (suc fuel) (c ∷ s) = elim (token fuel c s) [
  | none ↦ none
  | some (t, rest) ↦ elim (tokens fuel rest) [ none ↦ none | some ts ↦ some (t ∷ ts) ]
]

unfoldable pub in_ranges : List (ℕ × ℕ) → ℕ → Bool
in_ranges [] c = false
in_ranges ((lo, hi) ∷ rs) c = leb lo c && leb c hi || in_ranges rs c

unfoldable pub glob : List Token → Bytes → Bool
unfolding in_ranges
glob [] [] = true
glob [] (c ∷ s) = false
glob (star ∷ ts) [] = glob ts []
glob (star ∷ ts) (c ∷ s) =
    let here = glob ts (c ∷ s) in
    let later = glob (star ∷ ts) s in if here then true else if c == b'/' then false else later
glob (lit d ∷ ts) [] = false
glob (lit d ∷ ts) (c ∷ s) = c == d && glob ts s
glob (any_one ∷ ts) [] = false
glob (any_one ∷ ts) (c ∷ s) = not (c == b'/') && glob ts s
glob (class negated rs ∷ ts) [] = false
glob (class negated rs ∷ ts) (c ∷ s) =
    (if negated then not (in_ranges rs c) else in_ranges rs c) && glob ts s

-- filepath.Match(pattern, name), without its error
unfoldable pub match : Bytes → Bytes → Bool
unfolding tokens glob
match pattern name = elim (tokens (length pattern + 1) pattern) [
  | none ↦ false
  | some ts ↦ glob ts name
]
