-- ===== src/Openwrt/Laws.antt =====
-- What the lists of `getCIDR` hold.
use dockerset.Base.{
  ℕ, ◌≡◌, refl, ap, sym, ◌∙◌, ◌⊎◌, inl, inr, Bool, List, [], ◌∷◌, ◌++◌, append_assoc, append-nil,
  map, Option, none, some, arith, ◌===◌, if◌then◌else◌, Bool-cases, Option-cases, Bytes, In, ◌&&◌,
  ◌==◌, length, suc, In-append,
}
use dockerset.Openwrt.{
  Address, RouterInterface, WelcomeElement, received, Cidrs, cidrs, cidr_of, add_ipv4, add_ipv6,
  add_interfaces, add_results, add_elements, no_cidrs, get_cidr, add_interface,
}

abbrev pub cidrs_of : List Address → List Bytes
cidrs_of = map cidr_of

-- The addresses of the interface in a response, of either family
abbrev pub ipv4_of : Bytes → List RouterInterface → List Bytes
ipv4_of iface [] = []
ipv4_of iface (i ∷ is) =
    (if i.name === iface then cidrs_of i.ipv4_address else []) ++ ipv4_of iface is

abbrev pub ipv6_of : Bytes → List RouterInterface → List Bytes
ipv6_of iface [] = []
ipv6_of iface (i ∷ is) =
    (if i.name === iface then cidrs_of i.ipv6_prefix_assignment else []) ++ ipv6_of iface is

abbrev pub interfaces_of : List (Option (List RouterInterface)) → List RouterInterface
interfaces_of [] = []
interfaces_of (none ∷ rs) = interfaces_of rs
interfaces_of (some is ∷ rs) = is ++ interfaces_of rs

abbrev pub all_interfaces : List WelcomeElement → List RouterInterface
all_interfaces [] = []
all_interfaces (w ∷ ws) = interfaces_of w.result ++ all_interfaces ws

-- The lists after one more address of the first
abbrev added : (ℕ → Bool) → Address → Cidrs → Cidrs
added room a c = record {
  ipv4 = c.ipv4 ++ (cidr_of a ∷ []);
  ipv6 =
      if room (length c.ipv4) && (length c.ipv6 == suc (length c.ipv4))
      then c.ipv4 ++ (cidr_of a ∷ [])
      else c.ipv6;
}

module _ (room : ℕ → Bool) where
  add_ipv4-ipv4 :
      (addrs : List Address) (c : Cidrs) → (add_ipv4 room addrs c).ipv4 ≡ c.ipv4 ++ cidrs_of addrs
  unfolding add_ipv4
  add_ipv4-ipv4 [] c = sym (append-nil c.ipv4)
  add_ipv4-ipv4 (a ∷ addrs) c =
      add_ipv4-ipv4 addrs (added room a c) ∙ append_assoc c.ipv4 (cidr_of a ∷ []) (cidrs_of addrs)

  add_ipv6-ipv4 : (addrs : List Address) (c : Cidrs) → (add_ipv6 room addrs c).ipv4 ≡ c.ipv4
  unfolding add_ipv6
  add_ipv6-ipv4 [] c = refl
  add_ipv6-ipv4 (a ∷ addrs) c = add_ipv6-ipv4 addrs (record c { ipv6 = c.ipv4 ++ (cidr_of a ∷ []) })

-- The second list is empty, or a start of the first list with one more range behind it.
abbrev pub OneMore : (Bytes → Type 0) → Cidrs → Type 0
OneMore Q c =
    (c.ipv6 ≡ [])
    ⊎ ((start : List Bytes) × (x : Bytes) × (rest : List Bytes) × (c.ipv6 ≡ start ++ (x ∷ []))
        × (c.ipv4 ≡ start ++ rest)
        × Q x)

module _ (room : ℕ → Bool) (Q : Bytes → Type 0) where
  added-OneMore :
      (a : Address) (c : Cidrs) → Q (cidr_of a) → OneMore Q c → OneMore Q (added room a c)
  added-OneMore a c q old =
      elim (Bool-cases (room (length c.ipv4) && (length c.ipv6 == suc (length c.ipv4)))) [
        | inl here ↦ rw here (inr (c.ipv4, cidr_of a, cidr_of a ∷ [], refl, refl, q))
        | inr apart ↦ rw apart (elim old [
          | inl e ↦ inl e
          | inr (start, x, rest, six, four, qx) ↦ inr (
            start,
            x,
            rest ++ (cidr_of a ∷ []),
            six,
            ap (λ (l : List Bytes). l ++ (cidr_of a ∷ [])) four
                ∙ append_assoc start rest (cidr_of a ∷ []),
            qx,
          )
        ])
      ]

  add_ipv4-OneMore :
      (addrs : List Address) (c : Cidrs)
      → ((x : Bytes) → In x (cidrs_of addrs) → Q x)
      → OneMore Q c
      → OneMore Q (add_ipv4 room addrs c)
  unfolding add_ipv4
  add_ipv4-OneMore [] c q shape = shape
  add_ipv4-OneMore (a ∷ addrs) c q shape =
      add_ipv4-OneMore addrs (added room a c) (λ x m. q x (inr m))
        (added-OneMore a c (q (cidr_of a) (inl refl)) shape)

  add_ipv6-OneMore :
      (addrs : List Address) (c : Cidrs)
      → ((x : Bytes) → In x (cidrs_of addrs) → Q x)
      → OneMore Q c
      → OneMore Q (add_ipv6 room addrs c)
  unfolding add_ipv6
  add_ipv6-OneMore [] c q shape = shape
  add_ipv6-OneMore (a ∷ addrs) c q shape =
      add_ipv6-OneMore addrs (record c { ipv6 = c.ipv4 ++ (cidr_of a ∷ []) }) (λ x m. q x (inr m))
        (inr (c.ipv4, cidr_of a, [], refl, sym (append-nil c.ipv4), q (cidr_of a) (inl refl)))

-- A range of the interface in a response, of either family
abbrev pub IsRange : Bytes → List WelcomeElement → Bytes → Type 0
IsRange iface ws x =
    In x (ipv4_of iface (all_interfaces ws)) ⊎ In x (ipv6_of iface (all_interfaces ws))

-- What a step does with the lists, for the interfaces that it goes through
abbrev Adds : Bytes → (Bytes → Type 0) → List RouterInterface → Cidrs → Cidrs → Type 0
Adds iface Q is c c1 =
    (c1.ipv4 ≡ c.ipv4 ++ ipv4_of iface is)
    × (((x : Bytes) → In x (ipv4_of iface is) → Q x)
        → ((x : Bytes) → In x (ipv6_of iface is) → Q x)
        → OneMore Q c
        → OneMore Q c1)

ipv4_of-append :
    (iface : Bytes) (is js : List RouterInterface)
    → ipv4_of iface (is ++ js) ≡ ipv4_of iface is ++ ipv4_of iface js
ipv4_of-append iface [] js = refl
ipv4_of-append iface (i ∷ is) js =
    let ours = if i.name === iface then cidrs_of i.ipv4_address else [] in
    ap (λ (l : List Bytes). ours ++ l) (ipv4_of-append iface is js)
    ∙ sym (append_assoc ours (ipv4_of iface is) (ipv4_of iface js))

ipv6_of-append :
    (iface : Bytes) (is js : List RouterInterface)
    → ipv6_of iface (is ++ js) ≡ ipv6_of iface is ++ ipv6_of iface js
ipv6_of-append iface [] js = refl
ipv6_of-append iface (i ∷ is) js =
    let ours = if i.name === iface then cidrs_of i.ipv6_prefix_assignment else [] in
    ap (λ (l : List Bytes). ours ++ l) (ipv6_of-append iface is js)
    ∙ sym (append_assoc ours (ipv6_of iface is) (ipv6_of iface js))

module _ (room : ℕ → Bool) (iface : Bytes) (Q : Bytes → Type 0) where
  Adds-trans :
      (is js : List RouterInterface) (a b c : Cidrs)
      → Adds iface Q is a b
      → Adds iface Q js b c
      → Adds iface Q (is ++ js) a c
  Adds-trans is js a b c (four, f) (four1, g) = (
    four1
        ∙ ap (λ (l : List Bytes). l ++ ipv4_of iface js) four
        ∙ append_assoc a.ipv4 (ipv4_of iface is) (ipv4_of iface js)
        ∙ ap (λ (l : List Bytes). a.ipv4 ++ l) (sym (ipv4_of-append iface is js)),
    λ q4 q6 shape.
        let q4s : (x : Bytes) → In x (ipv4_of iface is ++ ipv4_of iface js) → Q x =
          rw (ipv4_of-append iface is js) at q4 in
        let q6s : (x : Bytes) → In x (ipv6_of iface is ++ ipv6_of iface js) → Q x =
          rw (ipv6_of-append iface is js) at q6 in
        let in4 = λ (x : Bytes). In-append x (ipv4_of iface is) (ipv4_of iface js) in
        let in6 = λ (x : Bytes). In-append x (ipv6_of iface is) (ipv6_of iface js) in
        g (λ x m. q4s x ((in4 x).1 m)) (λ x m. q6s x ((in6 x).1 m))
          (f (λ x m. q4s x ((in4 x).0 m)) (λ x m. q6s x ((in6 x).0 m)) shape),
  )

  add_interface-Adds :
      (i : RouterInterface) (c : Cidrs) → Adds iface Q (i ∷ []) c (add_interface room iface i c)
  unfolding add_interface
  add_interface-Adds i c = elim (Bool-cases (i.name === iface)) [
    | inr other ↦ rw (other, append-nil) (refl, λ q4 q6 shape. shape)
    | inl ours ↦
        let c4 = add_ipv4 room i.ipv4_address c in
        rw (ours, append-nil, append-nil)
          (
            add_ipv6-ipv4 room i.ipv6_prefix_assignment c4 ∙ add_ipv4-ipv4 room i.ipv4_address c,
            λ q4 q6 old.
                add_ipv6-OneMore room Q i.ipv6_prefix_assignment c4 q6
                  (add_ipv4-OneMore room Q i.ipv4_address c q4 old),
          )
  ]

  add_interfaces-Adds :
      (is : List RouterInterface) (c : Cidrs) → Adds iface Q is c (add_interfaces room iface is c)
  unfolding add_interfaces
  add_interfaces-Adds [] c = (sym (append-nil c.ipv4), λ q4 q6 shape. shape)
  add_interfaces-Adds (i ∷ is) c =
      Adds-trans (i ∷ []) is c (add_interface room iface i c)
        (add_interfaces room iface is (add_interface room iface i c)) (add_interface-Adds i c)
        (add_interfaces-Adds is (add_interface room iface i c))

  add_results-Adds :
      (rs : List (Option (List RouterInterface))) (c : Cidrs)
      → Adds iface Q (interfaces_of rs) c (add_results room iface rs c)
  unfolding add_results
  add_results-Adds [] c = (sym (append-nil c.ipv4), λ q4 q6 shape. shape)
  add_results-Adds (none ∷ rs) c = add_results-Adds rs c
  add_results-Adds (some is ∷ rs) c =
      Adds-trans is (interfaces_of rs) c (add_interfaces room iface is c)
        (add_results room iface rs (add_interfaces room iface is c)) (add_interfaces-Adds is c)
        (add_results-Adds rs (add_interfaces room iface is c))

  add_elements-Adds :
      (ws : List WelcomeElement) (c c1 : Cidrs)
      → add_elements room iface ws c ≡ cidrs c1
      → Adds iface Q (all_interfaces ws) c c1
  unfolding add_elements
  add_elements-Adds [] c c1 h =
      let same : c ≡ c1 = cc in rw same (sym (append-nil c1.ipv4), λ q4 q6 shape. shape)
  add_elements-Adds (w ∷ ws) c c1 h = elim (Option-cases w.error) [
    | inr (message, e) ↦ absurd (ground (arith, h, e))
    | inl e ↦
        let rest : add_elements room iface ws (add_results room iface w.result c) ≡ cidrs c1 =
          rw (e, add_elements) at h in
        Adds-trans (interfaces_of w.result) (all_interfaces ws) c
          (add_results room iface w.result c) c1 (add_results-Adds w.result c)
          (add_elements-Adds ws (add_results room iface w.result c) c1 rest)
  ]

-- Where `getCIDR` reads a response without an error, its first list has every IPv4 address of the
-- interface, in order. Its second list is empty, or a start of the first list and one range of the
-- interface behind it: it never has two of its IPv6 prefixes.
pub get_cidr-OneMore :
    (room : ℕ → Bool) (iface : Bytes) (ws : List WelcomeElement) (c : Cidrs)
    → get_cidr room iface (received ws) ≡ cidrs c
    → (c.ipv4 ≡ ipv4_of iface (all_interfaces ws)) × OneMore (λ x. IsRange iface ws x) c
unfolding get_cidr
get_cidr-OneMore room iface ws c h =
    let (four, shape) = add_elements-Adds room iface (IsRange iface ws) ws no_cidrs c h in
    (four, shape (λ x m. inl m) (λ x m. inr m) (inl refl))
