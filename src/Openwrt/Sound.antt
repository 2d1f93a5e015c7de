-- ===== src/Openwrt/Sound.antt =====
-- What the answer of `httpHandler` says of the client.
use dockerset.Base.{
  ℕ, zero, suc, ◌≡◌, refl, sym, ap, ◌∙◌, inl, inr, Bool, true, List, [], ◌∷◌, ◌++◌, Option, some,
  arith, ◌===◌, ◌||◌, Bool-cases, Option-cases, Bytes, In, length, ◌==◌, ◌⊎◌, ◌<◌, ◌+◌, ◌≢◌,
  In-append, append-In, none, All,
}
use dockerset.Openwrt.Laws.{IsRange, get_cidr-OneMore}
use dockerset.Openwrt.{
  Fetched, Cidrs, cidrs, failure, get_cidr, Router, look, looked, refused, no_cidrs, access_denied,
  parse_ranges, any_contains, is_inside, http_handler, WelcomeElement, received, CidrResult, answer,
  unparsed, unsent, Looked, add_elements, add_results,
}

-- A range that the lists of a response hold is one of the interface.
listed-IsRange :
    (room : ℕ → Bool) (iface : Bytes) (ws : List WelcomeElement) (c : Cidrs) (x : Bytes)
    → get_cidr room iface (received ws) ≡ cidrs c
    → In x (c.ipv4 ++ c.ipv6)
    → IsRange iface ws x
listed-IsRange room iface ws c x h m =
    let (four, shape) = get_cidr-OneMore room iface ws c h in
    let of_ipv4 : In x c.ipv4 → IsRange iface ws x = λ m4. inl (rw four at m4) in
    elim (append-In x c.ipv4 c.ipv6 m) [
      | inl m4 ↦ of_ipv4 m4
      | inr m6 ↦ elim shape [
        | inl none_six ↦ let nowhere : In x [] = rw none_six at m6 in absurd nowhere
        | inr (start, y, rest, six, of_start, q) ↦
            let there : In x (start ++ (y ∷ [])) = rw six at m6 in
            elim (append-In x start (y ∷ []) there) [
              | inl ms ↦ of_ipv4 (rw of_start ((In-append x start rest).0 ms))
              | inr my ↦ elim my [ inl e ↦ rw e q | inr nowhere ↦ absurd nowhere ]
            ]
      ]
    ]

-- No element of the response has an error.
abbrev pub IsFaultless : List WelcomeElement → Type 0
IsFaultless ws = All (λ w. w.error ≡ none) ws

add_elements-IsFaultless :
    (room : ℕ → Bool) (iface : Bytes) (ws : List WelcomeElement) (from c : Cidrs)
    → add_elements room iface ws from ≡ cidrs c
    → IsFaultless ws
unfolding add_elements
add_elements-IsFaultless room iface [] from c h = tt
add_elements-IsFaultless room iface (w ∷ ws) from c h = elim (Option-cases w.error) [
  | inl faultless ↦ (
    faultless,
    add_elements-IsFaultless room iface ws (add_results room iface w.result from) c
        (rw (faultless, add_elements) at h),
  )
  | inr (message, e) ↦
      let wrong : failure message ≡ cidrs c = rw (e, add_elements) at h in absurd cc
]

fetched-IsRange :
    (room : ℕ → Bool) (iface : Bytes) (f : Fetched) (c : Cidrs) (x : Bytes)
    → get_cidr room iface f ≡ cidrs c
    → In x (c.ipv4 ++ c.ipv6)
    → (ws : List WelcomeElement) × (f ≡ received ws) × IsFaultless ws × IsRange iface ws x
unfolding get_cidr
fetched-IsRange room iface (unsent message) c x h m = absurd (ground (arith, h))
fetched-IsRange room iface unparsed c x h m =
    let empty : no_cidrs ≡ c = cc in
    let nowhere : In x (no_cidrs.ipv4 ++ no_cidrs.ipv6) = rw (sym empty) at m in absurd nowhere
fetched-IsRange room iface (received ws) c x h m = (
  ws,
  refl,
  add_elements-IsFaultless room iface ws no_cidrs c h,
  listed-IsRange room iface ws c x h m,
)

Looked-cases :
    (l : Looked)
    → ((c : Cidrs) × (token : Bytes) × (l ≡ looked c token))
      ⊎ ((token : Bytes) × (l ≡ refused token))
Looked-cases (looked c token) = inl (c, token, refl)
Looked-cases (refused token) = inr (token, refl)

refused-looked : (token last : Bytes) (c : Cidrs) → refused token ≢ looked c last
refused-looked token last c h = absurd (ground (arith, h))

-- The token of a round: the one at hand at first, and then the one that `doAuth` got after the last.
pub data IsToken (router : Router) (token : Bytes) : ℕ → Bytes → Type 0 where
  at_hand : IsToken router token 0 token
  renewed :
      (k : ℕ) (fresh : Bytes) → router.auth k ≡ some fresh → IsToken router token (suc k) fresh

-- The lists of an answer to a request that was sent
abbrev IsAnswer : (ℕ → Bool) → Router → Bytes → Bytes → ℕ → Cidrs → Type 0
IsAnswer room router iface first last c =
    (k : ℕ) × (used : Bytes) × (k < last)
    × IsToken router first k used
    × (get_cidr room iface (router.fetch k used) ≡ cidrs c)

CidrResult-cases :
    (r : CidrResult) → ((c : Cidrs) × (r ≡ cidrs c)) ⊎ ((message : Bytes) × (r ≡ failure message))
CidrResult-cases (cidrs c) = inl (c, refl)
CidrResult-cases (failure message) = inr (message, refl)

module _ (room : ℕ → Bool) (router : Router) (iface first : Bytes) where
  look-IsAnswer :
      (left n : ℕ) (token last : Bytes) (c : Cidrs)
      → IsToken router first n token
      → look room router iface left n token ≡ looked c last
      → (c ≡ no_cidrs) ⊎ IsAnswer room router iface first (n + left) c
  unfolding look
  look-IsAnswer zero n token last c own h = inl cc
  look-IsAnswer (suc left) n token last c own h =
      elim (CidrResult-cases (get_cidr room iface (router.fetch n token))) [
        | inl (c1, e) ↦
            let same : looked c1 token ≡ looked c last = rw (e, look) at h in
            inr (n, token, omega arith, own, e ∙ ap cidrs cc)
        | inr (message, e) ↦ elim (Bool-cases (message === access_denied)) [
          | inr other ↦ absurd (refused-looked token last c (rw (e, other, look) at h))
          | inl denied ↦ elim (Option-cases (router.auth n)) [
            | inl gone ↦ absurd (ground (arith, h, e, denied, gone))
            | inr (fresh, given) ↦
                let again : look room router iface left (suc n) fresh ≡ looked c last =
                  rw (e, denied, given, look) at h in
                elim (look-IsAnswer left (suc n) fresh last c (renewed n fresh given) again) [
                  | inl empty ↦ inl empty
                  | inr (k, used, lt, sent, got) ↦ inr (k, used, omega arith, sent, got)
                ]
          ]
        ]
      ]

module _ {Ip Range : Type 0} (parse_ip : Bytes → Option Ip) (parse_range : Bytes → Option Range)
    (contains : Range → Ip → Bool) where
  -- Some range of the list parses and has the address.
  abbrev Holder : List Bytes → Ip → Type 0
  Holder cs ip =
      (cidr : Bytes) × (r : Range) × In cidr cs
      × (parse_range cidr ≡ some r)
      × (contains r ip ≡ true)

  contained-Holder :
      (cs : List Bytes) (ip : Ip)
      → any_contains parse_ip parse_range contains
          (parse_ranges parse_ip parse_range contains cs)
          ip
        ≡ true
      → Holder cs ip
  unfolding any_contains parse_ranges
  contained-Holder [] ip h = absurd (ground (arith, h))
  contained-Holder (cidr ∷ cs) ip h =
      let later : any_contains parse_ip parse_range contains
              (parse_ranges parse_ip parse_range contains cs) ip
            ≡ true
          → Holder (cidr ∷ cs) ip =
        λ g. let (x, r, m, parsed, has) = contained-Holder cs ip g in (x, r, inr m, parsed, has) in
      elim (Option-cases (parse_range cidr)) [
        | inl bad ↦ later (rw (bad, parse_ranges) at h)
        | inr (r, parsed) ↦
            let h1 : (contains r ip
                  || any_contains parse_ip parse_range contains
                      (parse_ranges parse_ip parse_range contains cs) ip)
                ≡ true =
              rw (parsed, parse_ranges, any_contains) at h in
            elim (Bool-cases (contains r ip)) [
              | inl has ↦ (cidr, r, inl refl, parsed, has)
              | inr lacks ↦ later (rw lacks at h1)
            ]
      ]

  -- `httpHandler` answers OK only where the client's address parses, and it lies in a range that
  -- parses and that is an address or a prefix of the interface, in an answer of the router none of
  -- whose elements has an error. It is the answer to one of at most three requests: the first with
  -- the token that was kept, each other with the one that `doAuth` got after the request before it.
  pub http_handler-IsRange :
      (room : ℕ → Bool) (router : Router) (iface real_ip token last : Bytes)
      → http_handler parse_ip parse_range contains room router iface real_ip token ≡ (true, last)
      → (ip : Ip) × (ws : List WelcomeElement) × (cidr : Bytes) × (r : Range) × (parse_ip real_ip
          ≡ some ip)
        × ((k : ℕ) × (used : Bytes) × (k < 3)
            × IsToken router token k used
            × (router.fetch k used ≡ received ws))
        × IsFaultless ws
        × IsRange iface ws cidr
        × (parse_range cidr ≡ some r)
        × (contains r ip ≡ true)
  unfolding http_handler is_inside
  http_handler-IsRange room router iface real_ip token last h =
      elim (Bool-cases (length real_ip == 0)) [
        | inl empty ↦
            absurd (ground (arith, ap (λ (p : Bool × Bytes). p.0) (rw (empty, http_handler) at h)))
        | inr given ↦ elim (Option-cases (parse_ip real_ip)) [
          | inl bad ↦
              absurd (
                ground (arith, ap (λ (p : Bool × Bytes). p.0) (rw (given, bad, http_handler) at h)))
          | inr (ip, parsed) ↦
              let h1 : answer parse_ip parse_range contains ip (look room router iface 3 0 token)
                  ≡ (true, last) =
                rw (given, parsed, http_handler) at h in
              elim (Looked-cases (look room router iface 3 0 token)) [
                | inr (t, e) ↦ absurd (ground (arith, ap (λ (p : Bool × Bytes). p.0) (rw e at h1)))
                | inl (c, t, e) ↦
                    let inside : is_inside parse_ip parse_range contains c ip ≡ true =
                      ap (λ (p : Bool × Bytes). p.0) (rw e at h1) in
                    let (cidr, r, listed, read, has) =
                      contained-Holder (c.ipv4 ++ c.ipv6) ip inside in
                    elim (look-IsAnswer room router iface token 3 0 token t c at_hand e) [
                      | inl none_found ↦
                          let nowhere : In cidr [] = rw none_found at listed in absurd nowhere
                      | inr (k, used, lt, own, got) ↦
                          let (ws, sent, faultless, range) =
                            fetched-IsRange room iface (router.fetch k used) c cidr got listed in
                          (
                            ip,
                            ws,
                            cidr,
                            r,
                            parsed,
                            (k, used, lt, own, sent),
                            faultless,
                            range,
                            read,
                            has,
                          )
                    ]
              ]
        ]
      ]
