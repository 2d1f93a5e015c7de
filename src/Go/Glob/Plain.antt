-- ===== src/Go/Glob/Plain.antt =====
-- Patterns without a special byte.

use dockerset.Base.{
  ℕ, zero, suc, ◌+◌, ◌<◌, ◌≡◌, refl, Bool, true, false, not, ◌||◌, [], ◌∷◌, map, none, some, arith,
  ◌==◌, Bytes, length, All,
}
use dockerset.Go.Text.{contains, index_of, has_prefix}
use dockerset.Go.Path.{slash}
use dockerset.Go.Glob.{lit, token, tokens, glob, match}

-- A byte that stands for itself in a pattern, and no separator
abbrev pub is_plain : ℕ → Bool
is_plain c = not (c == b'*' || c == b'?' || c == b'[' || c == b'\\' || c == b'/')

abbrev pub IsPlain : Bytes → Type 0
IsPlain s = All (λ c. is_plain c ≡ true) s

nor :
    (a b c d e : Bool)
    → not (a || b || c || d || e) ≡ true
    → (a ≡ false) × (b ≡ false) × (c ≡ false) × (d ≡ false) × (e ≡ false)
nor false false false false false h = (refl, refl, refl, refl, refl)
nor true b c d e h = cc
nor false true c d e h = cc
nor false false true d e h = cc
nor false false false true e h = cc
nor false false false false true h = cc

token-lit : (fuel c : ℕ) (s : Bytes) → is_plain c ≡ true → token fuel c s ≡ some (lit c, s)
unfolding token
token-lit fuel c [] plain =
    let (s, q, b, e, d) = nor (c == b'*') (c == b'?') (c == b'[') (c == b'\\') (c == b'/') plain in
    rw (s, q, b, e) refl
token-lit fuel c (d ∷ rest) plain =
    let (s, q, b, e, d) = nor (c == b'*') (c == b'?') (c == b'[') (c == b'\\') (c == b'/') plain in
    rw (s, q, b, e) refl

tokens-IsPlain :
    (fuel : ℕ) (s : Bytes) → IsPlain s → length s < fuel → tokens fuel s ≡ some (map lit s)
unfolding tokens
tokens-IsPlain fuel [] plain h = refl
tokens-IsPlain zero (c ∷ s) plain h = absurd (omega arith)
tokens-IsPlain (suc fuel) (c ∷ s) (plain, rest) h =
    rw (token-lit fuel c s plain, tokens-IsPlain fuel s rest (omega arith), tokens) refl

glob-IsPlain : (s : Bytes) → glob (map lit s) s ≡ true
unfolding glob
glob-IsPlain [] = refl
glob-IsPlain (c ∷ s) = rw (glob-IsPlain s) (ground arith)

pub match-IsPlain : (s : Bytes) → IsPlain s → match s s ≡ true
unfolding match
match-IsPlain s plain =
    rw (tokens-IsPlain (length s + 1) s plain (omega arith), match) (glob-IsPlain s)

no_slash : (c : ℕ) → is_plain c ≡ true → (c == b'/') ≡ false
no_slash c plain =
    let (s, q, b, e, d) = nor (c == b'*') (c == b'?') (c == b'[') (c == b'\\') (c == b'/') plain in
    d

has_prefix-slash : (s : Bytes) → IsPlain s → has_prefix s slash ≡ false
unfolding has_prefix
has_prefix-slash [] plain = refl
has_prefix-slash (c ∷ s) (plain, rest) = rw (no_slash c plain) refl

index_of-slash : (s : Bytes) → IsPlain s → index_of s slash ≡ none
unfolding index_of
index_of-slash [] plain = refl
index_of-slash (c ∷ s) (plain, rest) =
    rw (has_prefix-slash (c ∷ s) (plain, rest), index_of-slash s rest) refl

pub contains-slash : (s : Bytes) → IsPlain s → contains s slash ≡ false
unfolding contains
contains-slash s plain = rw (index_of-slash s plain, contains) refl
