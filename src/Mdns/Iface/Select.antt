-- ===== src/Mdns/Iface/Select.antt =====
-- Which addresses and interfaces are chosen.
use dockerset.Base.{
  ◌≤◌, ◌≡◌, ◌≢◌, refl, ap, sym, ◌∙◌, true, false, Bool, ◌&&◌, inl, inr, ◌↔◌, List, [], ◌∷◌, ◌++◌,
  arith, leb, ◌==◌, ===_iff, Bool-cases, Option-cases, map, keep, In-keep, In-map, ok-injective,
  Bytes, length, length-append, get_or, All, All-append, In, Option, none, some, Outcome, ok, err,
}
use dockerset.Go.Net.{to4, to16, is_some, is_loopback, is_link_local_unicast}
use dockerset.Go.Net.Laws.{length-to4}
use dockerset.Mdns.Iface.{
  Addr, Iface, addr_ip, usable_ip, usable_from, iface_usable_ips, SelectError, is_allowed,
  is_candidate, select_from, first_missing, missing, select_interfaces, interface_not_found,
  no_usable_interfaces, member,
}

-- An IPv4 address of 4 bytes outside 127.0.0.0/8, or an IPv6 address that is neither loopback nor
-- link-local
abbrev pub IsUsable : Bool → Bytes → Type 0
IsUsable false ip = (length ip ≡ 4) × (get_or ip 0 0 ≢ 127)
IsUsable true ip =
    (to4 ip ≡ none)
    × (is_some (to16 ip) ≡ true)
    × (is_loopback ip ≡ false)
    × (is_link_local_unicast ip ≡ false)

some-injective : {a b : Bytes} → ◌≡◌ {A = Option Bytes} (some a) (some b) → a ≡ b
some-injective h = cc

usable_ip-IsUsable :
    (want_v6 : Bool) (ip out : Bytes) → usable_ip want_v6 ip ≡ some out → IsUsable want_v6 out
unfolding usable_ip
usable_ip-IsUsable true ip out h = ground arith
usable_ip-IsUsable false ip out h = elim (Option-cases (to4 ip)) [
  | inl e ↦ ground arith
  | inr (v4, e) ↦ ground (arith, length-to4 ip v4 e)
]

usable_from-IsUsable :
    (want_v6 : Bool) (addrs : List Addr) (out : List Bytes)
    → All (IsUsable want_v6) out
    → length out ≤ 2
    → All (IsUsable want_v6) (usable_from want_v6 addrs out)
      × (length (usable_from want_v6 addrs out) ≤ 3)
unfolding usable_from
usable_from-IsUsable want_v6 [] out h k = (h, omega arith)
usable_from-IsUsable want_v6 (a ∷ addrs) out h k =
    elim (Option-cases (usable_ip want_v6 (addr_ip a))) [
      | inl e ↦ rw (e, usable_from) (usable_from-IsUsable want_v6 addrs out h k)
      | inr (ip, e) ↦
          let size = length-append out (ip ∷ []) in
          let good =
            All-append (IsUsable want_v6) out (ip ∷ []) h
              (usable_ip-IsUsable want_v6 (addr_ip a) ip e, tt) in
          elim (Bool-cases (leb 3 (length (out ++ (ip ∷ []))))) [
            | inl full ↦ rw (e, usable_from) (rw full (good, omega arith))
            | inr more ↦
                rw (e, usable_from)
                  (rw more
                    (usable_from-IsUsable want_v6 addrs (out ++ (ip ∷ [])) good (ground arith)))
          ]
    ]

-- At most three addresses are offered for an interface, each usable and of the wanted family.
pub iface_usable_ips-IsUsable :
    (iface : Iface) (want_v6 : Bool)
    → All (IsUsable want_v6) (iface_usable_ips iface want_v6)
      × (length (iface_usable_ips iface want_v6) ≤ 3)
unfolding iface_usable_ips
iface_usable_ips-IsUsable iface want_v6 = elim (Option-cases iface.addrs) [
  | inl e ↦ rw e (tt, omega arith)
  | inr (addrs, e) ↦ rw e (usable_from-IsUsable want_v6 addrs [] tt (omega arith))
]

member_iff : (name : Bytes) (names : List Bytes) → (member name names ≡ true) ↔ In name names
unfolding member
member_iff name [] = ground arith
member_iff name (n ∷ ns) = ground (arith, ===_iff name n, member_iff name ns)

abbrev picks : Option (List Bytes) → Iface → Bool
picks allow i = is_allowed allow i.name && is_candidate i

allows : Option (List Bytes) → Iface → Bool
allows allow i = is_allowed allow i.name

select_from-keep :
    (allow : Option (List Bytes)) (ifaces : List Iface)
    → ((select_from allow ifaces).0 ≡ keep (picks allow) ifaces)
      × ((select_from allow ifaces).1 ≡ map (λ i. i.name) (keep (allows allow) ifaces))
unfolding select_from keep allows
select_from-keep allow [] = (refl, refl)
select_from-keep allow (x ∷ xs) =
    let (chosen, seen) = select_from-keep allow xs in
    elim (Bool-cases (is_allowed allow x.name)) [
      | inl e ↦ (rw e (ground (arith, chosen)), rw e (ap (◌∷◌ x.name) seen))
      | inr e ↦ (rw e chosen, rw e seen)
    ]

first_missing-some :
    (names seen : List Bytes) (name : Bytes)
    → first_missing names seen ≡ some name
    → In name names × (member name seen ≡ false)
unfolding first_missing
first_missing-some [] seen name h = cc
first_missing-some (n ∷ ns) seen name h = elim (Bool-cases (member n seen)) [
  | inl e ↦ let (there, f) = first_missing-some ns seen name (rw e at h) in (inr there, f)
  | inr e ↦ let same : n ≡ name = some-injective (rw e at h) in (inl (sym same), rw (← same) e)
]

first_missing-none :
    (names seen : List Bytes)
    → first_missing names seen ≡ none
    → (name : Bytes) → In name names
    → member name seen ≡ true
unfolding first_missing
first_missing-none [] seen h name m = elim m [ ]
first_missing-none (n ∷ ns) seen h name m = elim (Bool-cases (member n seen)) [
  | inl e ↦ elim m [
    | inl q ↦ rw q e
    | inr there ↦ first_missing-none ns seen (rw e at h) name there
  ]
  | inr e ↦ let no : some n ≡ none = rw e at h in cc
]

-- What a successful selection holds.
pub record IsSelection (allow : Option (List Bytes)) (ifaces selected : List Iface) : Type 0 where
  pub nonempty : selected ≢ []
  pub exactly :
      (i : Iface)
      → In i selected ↔ (In i ifaces × ((is_allowed allow i.name && is_candidate i) ≡ true))

-- Interfaces that are selected are exactly those that are allowed, up, capable of multicast and not
-- loopback, and there is at least one.
pub select_interfaces-IsSelection :
    (ifaces : List Iface) (allow : Option (List Bytes)) (selected : List Iface)
    → select_interfaces (some ifaces) allow ≡ ok selected
    → IsSelection allow ifaces selected
unfolding select_interfaces
select_interfaces-IsSelection ifaces allow selected h =
    let (chosen, seen) = select_from allow ifaces in
    let (chosen-eq, seen-eq) = select_from-keep allow ifaces in
    elim (Option-cases (missing allow seen)) [
      | inr (n, e) ↦
          let no : err (interface_not_found n) ≡ ok selected = rw (e, select_interfaces) at h in cc
      | inl e ↦ elim (Bool-cases (length chosen == 0)) [
        | inl z ↦
            let no : err no_usable_interfaces ≡ ok selected = rw (e, select_interfaces, z) at h in
            cc
        | inr z ↦
            let same : chosen ≡ selected = ok-injective (rw (e, select_interfaces, z) at h) in
            record {
              nonempty = λ empty. ground (arith, ap length (same ∙ empty));
              exactly = λ i. rw (sym same ∙ chosen-eq) (In-keep (picks allow) ifaces i);
            }
      ]
    ]

-- An interface that is reported as not found was asked for, and no interface has its name.
pub select_interfaces-not_found :
    (ifaces : List Iface) (allow : List Bytes) (name : Bytes)
    → select_interfaces (some ifaces) (some allow) ≡ err (interface_not_found name)
    → In name allow × ((i : Iface) → In i ifaces → i.name ≢ name)
unfolding select_interfaces is_allowed allows
select_interfaces-not_found ifaces allow name h =
    let (chosen, seen) = select_from (some allow) ifaces in
    let (chosen-eq, seen-eq) = select_from-keep (some allow) ifaces in
    elim (Option-cases (first_missing allow seen)) [
      | inr (n, e) ↦
          let same : ◌≡◌ {A = Outcome SelectError (List Iface)} (err (interface_not_found n))
              (err (interface_not_found name)) =
            rw (e, select_interfaces) at h in
          let n-eq : n ≡ name = cc in
          let (asked, unseen) = first_missing-some allow seen n e in
          let asked' : In name allow = rw n-eq at asked in
          (
            asked',
            λ i there named.
                let ok_name : member i.name allow ≡ true =
                  (member_iff i.name allow).1 (rw named asked') in
                let kept = (In-keep (allows (some allow)) ifaces i).1 (there, ok_name) in
                let listed : In i.name seen =
                  rw seen-eq (In-map (λ (j : Iface). j.name) _ i kept) in
                let found : member i.name seen ≡ true = (member_iff i.name seen).1 listed in
                let lost : member i.name seen ≡ false = rw (named, ← n-eq) unseen in cc,
          )
      | inl e ↦ elim (Bool-cases (length chosen == 0)) [
        | inl z ↦
            let no : err no_usable_interfaces ≡ err (interface_not_found name) =
              rw (e, select_interfaces, z) at h in
            cc
        | inr z ↦
            let no : ok chosen ≡ err (interface_not_found name) =
              rw (e, select_interfaces, z) at h in
            cc
      ]
    ]
