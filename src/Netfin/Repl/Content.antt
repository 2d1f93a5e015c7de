-- ===== src/Netfin/Repl/Content.antt =====
-- Which files `isSQLiteDatabase` takes for databases.
use dockerset.Base.{
  suc, ◌≡◌, refl, ap, ◌⊎◌, inl, inr, ◌↔◌, true, false, ◌==◌, [], ◌∷◌, ◌++◌, Option, none, some,
  arith, ===_iff, Bytes, length, codes, All,
}
use dockerset.Netfin.Repl.{filled, magic, is_sqlite_database}

-- The content is the header of a database with anything behind it, or the header less its last byte.
abbrev pub HasHeader : Bytes → Type 0
HasHeader content =
    (content ≡ codes "SQLite format 3")
    ⊎ ((rest : Bytes) × (content ≡ codes "SQLite format 3" ++ (0 ∷ rest)))

filled-split :
    (q s : Bytes)
    → All (λ c. (c == 0) ≡ false) q
    → filled (suc (length q)) s ≡ q ++ (0 ∷ [])
    → (s ≡ q) ⊎ ((rest : Bytes) × (s ≡ q ++ (0 ∷ rest)))
filled-split [] [] full h = inl refl
filled-split [] (c ∷ s) full h = let q : c ≡ 0 = cc in inr (s, rw q refl)
filled-split (x ∷ q) [] (given, full) h = let e : 0 ≡ x = cc in absurd (ground (arith, given, e))
filled-split (x ∷ q) (c ∷ s) (given, full) h =
    let first : c ≡ x = cc in
    let later : filled (suc (length q)) s ≡ q ++ (0 ∷ []) = cc in
    elim (filled-split q s full later) [
      | inl e ↦ inl (rw (first, e) refl)
      | inr (rest, e) ↦ inr (rest, rw (first, e) refl)
    ]

filled_exact : (q : Bytes) → filled (suc (length q)) q ≡ q ++ (0 ∷ [])
filled_exact [] = refl
filled_exact (x ∷ q) = ap (◌∷◌ x) (filled_exact q)

filled_longer : (q rest : Bytes) → filled (suc (length q)) (q ++ (0 ∷ rest)) ≡ q ++ (0 ∷ [])
filled_longer [] rest = refl
filled_longer (x ∷ q) rest = ap (◌∷◌ x) (filled_longer q rest)

HasHeader-filled : (s : Bytes) → HasHeader s → filled 16 s ≡ magic
HasHeader-filled s (inl e) = rw e (filled_exact (codes "SQLite format 3"))
HasHeader-filled s (inr (rest, e)) = rw e (filled_longer (codes "SQLite format 3") rest)

text-All : All (λ c. (c == 0) ≡ false) (codes "SQLite format 3")
text-All = search tt

pub is_sqlite_database_iff :
    (o : Option Bytes)
    → (is_sqlite_database o ≡ true) ↔ ((content : Bytes) × (o ≡ some content) × HasHeader content)
unfolding is_sqlite_database
is_sqlite_database_iff none = ((λ h. absurd cc), λ r. let (content, e, h) = r in absurd cc)
is_sqlite_database_iff (some []) = (
  (λ h. absurd cc),
  λ r.
      let (content, e, h) = r in
      let empty : [] ≡ content = cc in elim h [ inl q ↦ absurd cc | inr (rest, q) ↦ absurd cc ],
)
is_sqlite_database_iff (some (c ∷ s)) = (
  (λ h. (
    c ∷ s,
    refl,
    filled-split (codes "SQLite format 3") (c ∷ s) text-All
        ((===_iff (filled 16 (c ∷ s)) magic).0 h),
  )),
  λ r.
      let (content, e, h) = r in
      let same : content ≡ c ∷ s = cc in
      let here : HasHeader (c ∷ s) = rw same at h in
      (===_iff (filled 16 (c ∷ s)) magic).1 (HasHeader-filled (c ∷ s) here),
)
