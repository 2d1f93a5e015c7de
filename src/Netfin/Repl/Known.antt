-- ===== src/Netfin/Repl/Known.antt =====
-- Each database that is found gets one replicator.
use dockerset.Base.{
  ◌≡◌, sym, ◌⊎◌, ◌↔◌, inl, inr, Bool, true, false, List, [], ◌∷◌, ◌++◌, ◌===◌, ===_iff, Bytes, any,
  In, In-append, append-In, Bool-cases,
}
use dockerset.Netfin.Config.Dedupe.{IsNub}
use dockerset.Netfin.Repl.{start_new, run_db_config}

abbrev known_has : List Bytes → Bytes → Bool
known_has known path = any (λ p. p === path) known

any-In : (known : List Bytes) (path : Bytes) → known_has known path ≡ true → In path known
unfolding any
any-In [] path h = cc
any-In (p ∷ known) path h = elim (Bool-cases (p === path)) [
  | inl same ↦ inl (sym ((===_iff p path).0 same))
  | inr other ↦ inr (any-In known path (rw other at h))
]

append-IsNub :
    (known : List Bytes) (path : Bytes)
    → IsNub known
    → known_has known path ≡ false
    → IsNub (known ++ (path ∷ []))
unfolding any
append-IsNub [] path nub fresh = ((λ y m. absurd m), tt)
append-IsNub (p ∷ known) path (first, nub) fresh = elim (Bool-cases (p === path)) [
  | inl same ↦ absurd (let wrong : true ≡ false = rw same at fresh in cc)
  | inr other ↦ (
    (λ y m. elim (append-In y known (path ∷ []) m) [
      | inl old ↦ first y old
      | inr (inl new) ↦ rw new other
      | inr (inr none_left) ↦ absurd none_left
    ]),
    append-IsNub known path nub (rw other at fresh),
  )
]

abbrev Starts : List Bytes → List Bytes → List Bytes → Type 0
Starts known paths after = IsNub after × ((x : Bytes) → In x after ↔ (In x known ⊎ In x paths))

start_new-Starts :
    (known paths : List Bytes) → IsNub known → Starts known paths (start_new known paths)
unfolding start_new
start_new-Starts known [] nub =
    (nub, λ x. (λ m. inl m, λ m. elim m [ inl old ↦ old | inr new ↦ absurd new ]))
start_new-Starts known (path ∷ paths) nub = elim (Bool-cases (known_has known path)) [
  | inl old ↦
      let (after, iff) = start_new-Starts known paths nub in
      rw old (
        after,
        λ x. (
          λ m. elim ((iff x).0 m) [ inl k ↦ inl k | inr p ↦ inr (inr p) ],
          λ m. elim m [
            | inl k ↦ (iff x).1 (inl k)
            | inr (inl same) ↦ (iff x).1 (inl (rw same (any-In known path old)))
            | inr (inr p) ↦ (iff x).1 (inr p)
          ],
        ),
      )
  | inr fresh ↦
      let (after, iff) =
        start_new-Starts (known ++ (path ∷ [])) paths (append-IsNub known path nub fresh) in
      rw fresh (
        after,
        λ x. (
          λ m. elim ((iff x).0 m) [
            | inl k ↦ elim (append-In x known (path ∷ []) k) [
              | inl old ↦ inl old
              | inr (inl same) ↦ inr (inl same)
              | inr (inr gone) ↦ absurd gone
            ]
            | inr p ↦ inr (inr p)
          ],
          λ m. elim m [
            | inl k ↦ (iff x).1 (inl ((In-append x known (path ∷ [])).0 k))
            | inr (inl same) ↦ (iff x).1 (inl ((In-append x known (path ∷ [])).1 (inl same)))
            | inr (inr p) ↦ (iff x).1 (inr p)
          ],
        ),
      )
]

-- A path is found in a round.
abbrev pub IsFound : Bytes → List (List Bytes) → Type 0
IsFound x [] = ⊥
IsFound x (paths ∷ rounds) = In x paths ⊎ IsFound x rounds

run_db_config-known :
    (known : List Bytes) (rounds : List (List Bytes))
    → IsNub known
    → IsNub (run_db_config known rounds)
      × ((x : Bytes) → In x (run_db_config known rounds) ↔ (In x known ⊎ IsFound x rounds))
unfolding run_db_config
run_db_config-known known [] nub =
    (nub, λ x. (λ m. inl m, λ m. elim m [ inl old ↦ old | inr new ↦ absurd new ]))
run_db_config-known known (paths ∷ rounds) nub =
    let (mid, first) = start_new-Starts known paths nub in
    let (after, rest) = run_db_config-known (start_new known paths) rounds mid in
    (
      after,
      λ x. (
        λ m. elim ((rest x).0 m) [
          | inl k ↦ elim ((first x).0 k) [ inl old ↦ inl old | inr new ↦ inr (inl new) ]
          | inr f ↦ inr (inr f)
        ],
        λ m. elim m [
          | inl k ↦ (rest x).1 (inl ((first x).1 (inl k)))
          | inr (inl p) ↦ (rest x).1 (inl ((first x).1 (inr p)))
          | inr (inr f) ↦ (rest x).1 (inr f)
        ],
      ),
    )

-- However many rounds `runDBConfig` makes, it starts one replicator for each path that some round
-- found, and no other.
pub run_db_config-IsNub :
    (rounds : List (List Bytes))
    → IsNub (run_db_config [] rounds)
      × ((x : Bytes) → In x (run_db_config [] rounds) ↔ IsFound x rounds)
run_db_config-IsNub rounds =
    let (nub, iff) = run_db_config-known [] rounds tt in
    (
      nub,
      λ x. (
        λ m. elim ((iff x).0 m) [ inl none_known ↦ absurd none_known | inr f ↦ f ],
        λ f. (iff x).1 (inr f),
      ),
    )
