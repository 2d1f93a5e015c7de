-- ===== src/Geo/Rewrite/Laws.antt =====
-- What the rewritten answers hold.
use dockerset.Base.{
  ◌≡◌, ◌≢◌, ◌⊎◌, inl, inr, Bool, true, false, not, ◌&&◌, ◌||◌, List, [], ◌∷◌, ◌++◌, append_assoc,
  append-nil, Option, none, some, arith, ◌==◌, if◌then◌else◌, Bool-cases, Option-cases, Bytes,
  length, All, keep,
}
use dockerset.Go.Net.{to4, is_loopback, is_unspecified, is_link_local_unicast}
use dockerset.Go.Net.Laws.{length-to4, to4_four}
use dockerset.Geo.Rewrite.{
  Rr, type_a, type_aaaa, type_cname, type_https, type_svcb, local_a, matched, rewrite_from,
  rewrite_answers, Msg, merge, Exchanged, received, query_upstream_msg,
  choose_bypass_ipv4_from_addrs, NetIface, find_bypass_ip, env_enabled, answer_ip,
}

-- The records that one answer becomes, and whether it changed
abbrev pub becomes : (Bytes → Bool) → Bytes → Rr → List Rr
becomes match ip_a rr =
    if matched match rr
    then if rr.rr_type == type_a || rr.rr_type == type_cname
      then local_a rr ip_a ∷ []
      else if rr.rr_type == type_aaaa || rr.rr_type == type_https || rr.rr_type == type_svcb
      then []
      else rr ∷ []
    else rr ∷ []

abbrev pub is_affected : (Bytes → Bool) → Rr → Bool
is_affected match rr =
    matched match rr
    && (rr.rr_type == type_a
        || rr.rr_type == type_cname
        || rr.rr_type == type_aaaa
        || rr.rr_type == type_https
        || rr.rr_type == type_svcb)

abbrev pub rewritten : (Bytes → Bool) → Bytes → List Rr → List Rr
rewritten match ip_a [] = []
rewritten match ip_a (rr ∷ rrs) = becomes match ip_a rr ++ rewritten match ip_a rrs

abbrev pub affects : (Bytes → Bool) → List Rr → Bool
affects match [] = false
affects match (rr ∷ rrs) = is_affected match rr || affects match rrs

module _ (match : Bytes → Bool) (ip_a : Bytes) where
  rewrite_from-rewritten :
      (rrs out : List Rr) (changed : Bool)
      → rewrite_from match rrs ip_a out changed
        ≡ (out ++ rewritten match ip_a rrs, changed || affects match rrs)
  unfolding rewrite_from
  rewrite_from-rewritten [] out true = rw append-nil
  rewrite_from-rewritten [] out false = rw append-nil
  rewrite_from-rewritten (rr ∷ rrs) out changed = ground (
    arith,
    rewrite_from-rewritten rrs (out ++ (rr ∷ [])) changed,
    rewrite_from-rewritten rrs (out ++ (local_a rr ip_a ∷ [])) true,
    rewrite_from-rewritten rrs out true,
    append_assoc out (rr ∷ []) (rewritten match ip_a rrs),
    append_assoc out (local_a rr ip_a ∷ []) (rewritten match ip_a rrs),
  )

  -- A record of a matched name that a client may see: the local A record, or no address at all.
  abbrev pub IsSafe : Rr → Type 0
  IsSafe rr =
      matched match rr ≡ true
      → ((rr.rr_type ≡ type_a) × (rr.rdata ≡ ip_a))
        ⊎ ((rr.rr_type ≢ type_a)
            × (rr.rr_type ≢ type_cname)
            × (rr.rr_type ≢ type_aaaa)
            × (rr.rr_type ≢ type_https)
            × (rr.rr_type ≢ type_svcb))

  pub rewrite_answers-rewritten :
      (rrs : List Rr)
      → rewrite_answers match rrs ip_a ≡ (rewritten match ip_a rrs, affects match rrs)
  unfolding rewrite_answers
  rewrite_answers-rewritten rrs = rewrite_from-rewritten rrs [] false

  -- What the handler writes for the message of the upstream.
  pub record IsAnswered (up : Option Msg) (resp : Msg) : Type 0 where
    pub safe : All IsSafe resp.answer
    pub unmatched :
        keep (λ r. not (matched match r)) resp.answer
        ≡ keep (λ r. not (matched match r)) (merge up).answer
    pub code : resp.rcode ≡ (if affects match (merge up).answer then 0 else (merge up).rcode)
    pub sections : (resp.ns ≡ (merge up).ns) × (resp.extra ≡ (merge up).extra)

-- A message that the upstream query returns is the one by UDP, not truncated, or the one by TCP.
pub query_upstream_msg-source :
    (udp tcp : Exchanged) (m : Msg)
    → query_upstream_msg udp tcp ≡ some m
    → ((udp ≡ received (some m)) × (m.truncated ≡ false)) ⊎ (tcp ≡ received (some m))
unfolding query_upstream_msg
query_upstream_msg-source udp tcp m h = ground arith

-- An address that a client can be sent to: 4 bytes, and no loopback, unspecified or link-local one.
abbrev pub IsReachable : Bytes → Type 0
IsReachable ip =
    (length ip ≡ 4)
    × (is_loopback ip ≡ false)
    × (is_unspecified ip ≡ false)
    × (is_link_local_unicast ip ≡ false)

choose_bypass-IsReachable :
    (addrs : List (Option Bytes)) (ip : Bytes)
    → choose_bypass_ipv4_from_addrs addrs ≡ some ip
    → IsReachable ip
unfolding choose_bypass_ipv4_from_addrs
choose_bypass-IsReachable [] ip h = cc
choose_bypass-IsReachable (none ∷ addrs) ip h = choose_bypass-IsReachable addrs ip h
choose_bypass-IsReachable (some a ∷ addrs) ip h = elim (Option-cases (to4 a)) [
  | inl e ↦ ground (arith, choose_bypass-IsReachable addrs ip)
  | inr (v4, e) ↦ ground (arith, length-to4 a v4 e, choose_bypass-IsReachable addrs ip)
]

find_bypass-IsReachable :
    (infs : List NetIface) (ip : Bytes) → find_bypass_ip infs ≡ some ip → IsReachable ip
unfolding find_bypass_ip
find_bypass-IsReachable [] ip h = cc
find_bypass-IsReachable (inf ∷ infs) ip h = elim (Option-cases inf.addrs) [
  | inl e ↦ ground (arith, find_bypass-IsReachable infs ip)
  | inr (addrs, e) ↦ elim (Option-cases (choose_bypass_ipv4_from_addrs addrs)) [
    | inl n ↦ ground (arith, find_bypass-IsReachable infs ip)
    | inr (v4, c) ↦
        ground (arith, find_bypass-IsReachable infs ip, choose_bypass-IsReachable addrs v4 c)
  ]
]

-- The local address of the answers is 127.0.0.1, or an address of 4 bytes that is no loopback,
-- unspecified or link-local one; and it is 127.0.0.1 wherever the bypass is not enabled.
pub answer_ip-IsReachable :
    (value : Bytes) (infs : List NetIface)
    → ((answer_ip value infs ≡ 127 ∷ 0 ∷ 0 ∷ 1 ∷ []) ⊎ IsReachable (answer_ip value infs))
      × (env_enabled value ≡ false → answer_ip value infs ≡ 127 ∷ 0 ∷ 0 ∷ 1 ∷ [])
unfolding answer_ip
answer_ip-IsReachable value infs = elim (Bool-cases (env_enabled value)) [
  | inr off ↦ (inl (rw off), λ h. rw off)
  | inl on ↦ elim (Option-cases (find_bypass_ip infs)) [
    | inl none_found ↦ (inl (rw (on, none_found)), λ h. cc)
    | inr (ip, found) ↦
        let good = find_bypass-IsReachable infs ip found in
        (inr (rw (on, found) (rw (to4_four ip good.0) good)), λ h. cc)
  ]
]
