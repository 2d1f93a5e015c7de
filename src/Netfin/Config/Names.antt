-- ===== src/Netfin/Config/Names.antt =====
-- Which patterns the name of a database gives, and what they match.
use mathlib.Core.Path.{subst}
use dockerset.Base.{
  leb, ◌-◌, ℕ, zero, suc, ◌≡◌, refl, ap, ◌∙◌, sym, ◌⊎◌, inl, inr, Bool, true, false, ◌||◌, List, [],
  ◌∷◌, ◌++◌, map, arith, ◌==◌, ◌===◌, ===_iff, if◌then◌else◌, Bytes, length, drop, codes, All,
  All-append, In, In-append, Bool-cases,
}
use dockerset.Go.Text.{trim_space, trim_left, trim_right, is_space, is_empty, contains, has_suffix}
use dockerset.Go.Text.Laws.{and_false, trim_right-append}
use dockerset.Go.Path.{clean, dot}
use dockerset.Go.Glob.Plain.{IsPlain, is_plain, match-IsPlain, contains-slash}
use dockerset.Netfin.Excluder.{path_base, stars, pattern_excludes, any_excludes}
use dockerset.Netfin.Config.{with_companions, patterns_of}

-- Neither end is space.
abbrev pub IsTrimmed : Bytes → Type 0
IsTrimmed [] = ⊥
IsTrimmed (c ∷ s) = (is_space c ≡ false) × (trim_right (c ∷ s) ≡ c ∷ s)

pub trim_space-IsTrimmed : (s : Bytes) → IsTrimmed s → trim_space s ≡ s
unfolding trim_space trim_left
trim_space-IsTrimmed [] h = absurd h
trim_space-IsTrimmed (c ∷ s) (no_space, same) = rw no_space same

IsTrimmed-append :
    (s p : Bytes) → IsTrimmed s → trim_right p ≡ p → is_empty p ≡ false → IsTrimmed (s ++ p)
IsTrimmed-append [] p h same full = absurd h
IsTrimmed-append (c ∷ s) p (no_space, h) same full =
    (no_space, trim_right-append (c ∷ s) p same full)

drop-IsPlain : (n : ℕ) (s : Bytes) → IsPlain s → IsPlain (drop n s)
drop-IsPlain zero s plain = plain
drop-IsPlain (suc n) [] plain = plain
drop-IsPlain (suc n) (c ∷ s) (plain, rest) = drop-IsPlain n s rest

or_true : (b : Bool) → (b || true) ≡ true
or_true true = refl
or_true false = refl

has_suffix-stars : (s : Bytes) → IsPlain s → has_suffix s stars ≡ false
unfolding has_suffix
has_suffix-stars s plain = elim (Bool-cases (drop (length s - length stars) s === stars)) [
  | inl same ↦ absurd (
      let wrong : IsPlain stars =
        subst (λ (x : Bytes). IsPlain x) ((===_iff _ stars).0 same)
          (drop-IsPlain (length s - length stars) s plain) in
      let (one, rest) = wrong in cc)
  | inr other ↦ rw other (and_false (leb (length stars) (length s)))
]

pub pattern_excludes-IsPlain :
    (rel p : Bytes) → IsPlain p → IsTrimmed p → path_base rel ≡ p → pattern_excludes rel p ≡ true
unfolding pattern_excludes
pattern_excludes-IsPlain rel [] plain h same = absurd h
pattern_excludes-IsPlain rel (c ∷ s) plain h same =
    let full : (length (c ∷ s) == 0) ≡ false = ground arith in
    rw
      (
        full,
        has_suffix-stars (c ∷ s) plain,
        contains-slash (c ∷ s) plain,
        same,
        match-IsPlain (c ∷ s) plain,
      )
      refl

pub any_excludes-In :
    (rel p : Bytes) (ps : List Bytes)
    → In p ps
    → pattern_excludes rel p ≡ true
    → any_excludes rel ps ≡ true
unfolding any_excludes
any_excludes-In rel p [] m h = absurd m
any_excludes-In rel p (q ∷ ps) (inl e) h = rw (ap (pattern_excludes rel) (sym e) ∙ h) refl
any_excludes-In rel p (q ∷ ps) (inr m) h =
    rw (any_excludes-In rel p ps m h) (or_true (pattern_excludes rel q))

-- The name of the database `p`, or one that `SQLiteExcludePatterns` puts beside it
abbrev pub IsFileOf : Bytes → Bytes → Type 0
IsFileOf p name =
    (name ≡ p)
    ⊎ ((contains p (codes ".db") ≡ true)
        × In name ((p ++ codes "-wal") ∷ (p ++ codes "-shm") ∷ (p ++ codes "-journal") ∷ []))
    ⊎ ((contains p (codes ".sqlite") ≡ true)
        × In name ((p ++ codes "-wal") ∷ (p ++ codes "-shm") ∷ []))

In-if :
    (b : Bool) (name : Bytes) (names : List Bytes)
    → b ≡ true
    → In name names
    → In name (if b then names else [])
In-if true name names h m = m
In-if false name names h m = cc

with_companions-In : (p name : Bytes) → IsFileOf p name → In name (with_companions p)
unfolding with_companions
with_companions-In p name (inl e) = inl e
with_companions-In p name (inr (inl (db, m))) = inr ((In-append name _ _).0 (In-if _ name _ db m))
with_companions-In p name (inr (inr (sqlite, m))) =
    inr ((In-append name _ _).1 (In-if _ name _ sqlite m))

-- `p` is a name that stands for itself as a pattern.
abbrev pub IsName : Bytes → Type 0
IsName p = IsPlain p × IsTrimmed p × ((p === dot) ≡ false)

suffixes-IsName :
    (p name : Bytes) (suffixes : List Bytes)
    → IsName p
    → All (λ s. IsPlain s × (trim_right s ≡ s) × (is_empty s ≡ false)) suffixes
    → In name (map (λ s. p ++ s) suffixes)
    → IsPlain name × IsTrimmed name
suffixes-IsName p name [] of_p all m = absurd m
suffixes-IsName p name (s ∷ ss) (plain, trimmed, no_dot) ((plain_s, same, full), all) (inl e) =
    rw e (
      All-append (λ c. is_plain c ≡ true) p s plain plain_s,
      IsTrimmed-append p s trimmed same full,
    )
suffixes-IsName p name (s ∷ ss) of_p (first, all) (inr m) = suffixes-IsName p name ss of_p all m

pub IsFileOf-IsPlain : (p name : Bytes) → IsName p → IsFileOf p name → IsPlain name × IsTrimmed name
unfolding trim_right is_space
IsFileOf-IsPlain p name (plain, trimmed, no_dot) (inl e) = rw e (plain, trimmed)
IsFileOf-IsPlain p name of_p (inr (inl (db, m))) =
    suffixes-IsName p name (codes "-wal" ∷ codes "-shm" ∷ codes "-journal" ∷ []) of_p (search tt) m
IsFileOf-IsPlain p name of_p (inr (inr (sqlite, m))) =
    suffixes-IsName p name (codes "-wal" ∷ codes "-shm" ∷ []) of_p (search tt) m

IsName-used : (p : Bytes) → IsName p → (p === dot || length p == 0) ≡ false
IsName-used [] (plain, trimmed, no_dot) = absurd trimmed
IsName-used (c ∷ s) (plain, trimmed, no_dot) = rw no_dot (ground arith)

pub patterns_of-In :
    (names : List Bytes) (n name : Bytes)
    → In n names
    → IsName (clean n)
    → IsFileOf (clean n) name
    → In name (patterns_of names)
unfolding patterns_of
patterns_of-In [] n name m of_n file = absurd m
patterns_of-In (q ∷ names) n name (inl e) of_n file =
    let of_q : IsName (clean q) = subst (λ (x : Bytes). IsName (clean x)) e of_n in
    let file_q : IsFileOf (clean q) name = subst (λ (x : Bytes). IsFileOf (clean x) name) e file in
    rw (IsName-used (clean q) of_q) (
      (In-append name (with_companions (clean q)) (patterns_of names)).0
        (with_companions-In (clean q) name file_q))
patterns_of-In (q ∷ names) n name (inr m) of_n file =
    elim (Bool-cases (clean q === dot || length (clean q) == 0)) [
      | inl skip ↦ rw skip (patterns_of-In names n name m of_n file)
      | inr used ↦ rw used (
          (In-append name (with_companions (clean q)) (patterns_of names)).1
            (patterns_of-In names n name m of_n file))
    ]
