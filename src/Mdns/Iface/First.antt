-- ===== src/Mdns/Iface/First.antt =====
-- The addresses that `ifaceUsableIPs` offers, against a list of all that are usable.
use dockerset.Base.{
  ◌≤◌, ◌≡◌, ◌≢◌, refl, ap, sym, ◌∙◌, true, false, Bool, inl, inr, List, [], ◌∷◌, ◌++◌, arith, leb,
  ◌==◌, Bool-cases, Option-cases, Bytes, length, length-append, get_or, Option, none, some, take,
  take-append, take_all, append-nil, append_assoc,
}
use dockerset.Go.Net.{
  to4, to16, is_some, is_loopback, is_link_local_unicast, is_unspecified, is_multicast,
}
use dockerset.Mdns.Iface.{Addr, addr_ip, usable_ip, usable_from, Iface, iface_usable_ips}

-- An address that a host answers with, as it stands in the answer: given, not unspecified and not
-- multicast, and of the wanted family, which is not loopback and, for IPv6, not link-local.
unfoldable pub IsOffer : Bool → Bytes → Bytes → Type 0
IsOffer true ip out =
    (ip ≢ [])
    × (is_unspecified ip ≡ false)
    × (is_multicast ip ≡ false)
    × (to4 ip ≡ none)
    × (to16 ip ≢ none)
    × (is_loopback ip ≡ false)
    × (is_link_local_unicast ip ≡ false)
    × (out ≡ ip)
IsOffer false ip out =
    (ip ≢ [])
    × (is_unspecified ip ≡ false)
    × (is_multicast ip ≡ false)
    × (to4 ip ≡ some out)
    × (get_or out 0 0 ≢ 127)

-- The list has each usable address of the interface, in order.
pub data AreOffers (want_v6 : Bool) : List Addr → List Bytes → Type 0 where
  no_more : AreOffers want_v6 [] []
  offered :
      {a : Addr} {ip : Bytes} {addrs : List Addr} {ips : List Bytes}
      → IsOffer want_v6 (addr_ip a) ip
      → AreOffers want_v6 addrs ips
      → AreOffers want_v6 (a ∷ addrs) (ip ∷ ips)
  unusable :
      {a : Addr} {addrs : List Addr} {ips : List Bytes}
      → ((ip : Bytes) → ¬ IsOffer want_v6 (addr_ip a) ip)
      → AreOffers want_v6 addrs ips
      → AreOffers want_v6 (a ∷ addrs) ips

given : (ip : Bytes) → ip ≢ [] → length ip == 0 ≡ false
given [] h = absurd (h refl)
given (c ∷ ip) h = ground arith

not_given : (ip : Bytes) → length ip == 0 ≡ false → ip ≢ []
not_given [] h = absurd cc
not_given (c ∷ ip) h = λ e. absurd cc

present : (o : Option Bytes) → o ≢ none → is_some o ≡ true
present none h = absurd (h refl)
present (some x) h = refl

is_some-ne : (o : Option Bytes) → is_some o ≡ true → o ≢ none
is_some-ne none h = absurd cc
is_some-ne (some x) h = λ e. absurd cc

usable_ip-some :
    (want_v6 : Bool) (ip out : Bytes) → IsOffer want_v6 ip out → usable_ip want_v6 ip ≡ some out
unfolding usable_ip IsOffer
usable_ip-some true ip out (full, unspec, multi, no4, yes16, loop, local, same) =
    rw (given ip full, unspec, multi, no4, present (to16 ip) yes16, loop, local, same) refl
usable_ip-some false ip out (full, unspec, multi, four, far) =
    rw (given ip full, unspec, multi, four) (ground arith)

usable_ip-IsOffer :
    (want_v6 : Bool) (ip out : Bytes) → usable_ip want_v6 ip ≡ some out → IsOffer want_v6 ip out
unfolding usable_ip IsOffer
usable_ip-IsOffer true ip out h = elim (Option-cases (to4 ip)) [
  | inr (v4, e) ↦ absurd (ground (arith, e, h))
  | inl e ↦ (
    not_given ip (ground (arith, h)),
    ground (arith, h),
    ground (arith, h),
    e,
    is_some-ne (to16 ip) (ground (arith, h)),
    ground (arith, h),
    ground (arith, h),
    ground (arith, h),
  )
]
usable_ip-IsOffer false ip out h = elim (Option-cases (to4 ip)) [
  | inl e ↦ absurd (ground (arith, e, h))
  | inr (v4, e) ↦
      let same : v4 ≡ out = ground (arith, e, h) in
      (
        not_given ip (ground (arith, h)),
        ground (arith, h),
        ground (arith, h),
        rw same at e,
        λ q. absurd (ground (arith, e, h, same, q)),
      )
]

usable_from-take :
    (want_v6 : Bool) (addrs : List Addr) (ips out : List Bytes)
    → AreOffers want_v6 addrs ips
    → length out ≤ 2
    → usable_from want_v6 addrs out ≡ take 3 (out ++ ips)
unfolding usable_from
usable_from-take want_v6 [] [] out no_more few = sym (rw append-nil (take_all 3 out (omega arith)))
usable_from-take want_v6 [] (ip ∷ ips) out h few = elim h [ ]
usable_from-take want_v6 (a ∷ addrs) ips out (unusable never rest) few =
    elim (Option-cases (usable_ip want_v6 (addr_ip a))) [
      | inl e ↦ rw (e, usable_from) (usable_from-take want_v6 addrs ips out rest few)
      | inr (ip, e) ↦ absurd (never ip (usable_ip-IsOffer want_v6 (addr_ip a) ip e))
    ]
usable_from-take want_v6 (a ∷ addrs) (ip ∷ ips) out (offered offer rest) few =
    let more = out ++ (ip ∷ []) in
    let size = length-append out (ip ∷ []) in
    let whole : more ++ ips ≡ out ++ (ip ∷ ips) = append_assoc out (ip ∷ []) ips in
    elim (Bool-cases (leb 3 (length more))) [
      | inl full ↦
          rw (usable_ip-some want_v6 (addr_ip a) ip offer, usable_from)
            (rw full (sym (take-append more ips 3 (ground arith)) ∙ ap (take 3) whole))
      | inr room ↦
          rw (usable_ip-some want_v6 (addr_ip a) ip offer, usable_from)
            (rw room
              (usable_from-take want_v6 addrs ips more rest (ground arith) ∙ ap (take 3) whole))
    ]

-- The first three of the usable addresses are offered.
pub iface_usable_ips-take :
    (iface : Iface) (want_v6 : Bool) (addrs : List Addr) (ips : List Bytes)
    → iface.addrs ≡ some addrs
    → AreOffers want_v6 addrs ips
    → iface_usable_ips iface want_v6 ≡ take 3 ips
unfolding iface_usable_ips
iface_usable_ips-take iface want_v6 addrs ips given usable =
    rw given (usable_from-take want_v6 addrs ips [] usable (omega arith))
