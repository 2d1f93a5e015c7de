-- ===== src/Geo/Rewrite.antt =====
-- The DNS answers of geo-sni-proxy/internal/dns/dns.go and the handler that sends them.
pub mod Laws
use dockerset.Base.{
  ℕ, ◌+◌, Bool, true, false, not, ◌&&◌, ◌||◌, List, [], ◌∷◌, ◌++◌, Option, none, some, ◌==◌, ◌===◌,
  if◌then◌else◌, Bytes, length, codes, any,
}
use dockerset.Go.Text.{to_lower, trim_space, trim_suffix, equal_fold}
use dockerset.Go.Net.{to4, is_loopback, is_unspecified, is_link_local_unicast}

-- `mdns.RR`: the header and the data
pub record Rr : Type 0 where
  pub name : Bytes
  pub rr_type : ℕ
  pub class : ℕ
  pub ttl : ℕ
  pub rdata : Bytes

abbrev pub type_a : ℕ
type_a = 1

abbrev pub type_cname : ℕ
type_cname = 5

abbrev pub type_aaaa : ℕ
type_aaaa = 28

abbrev pub type_svcb : ℕ
type_svcb = 64

abbrev pub type_https : ℕ
type_https = 65

abbrev pub class_inet : ℕ
class_inet = 1

-- The A record that stands for a matched name.
abbrev pub local_a : Rr → Bytes → Rr
local_a rr ip_a = record {
  name = rr.name;
  rr_type = type_a;
  class = class_inet;
  ttl = rr.ttl;
  rdata = ip_a;
}

abbrev pub matched : (Bytes → Bool) → Rr → Bool
matched match rr = match (trim_suffix rr.name (codes "."))

-- The loop of `rewriteAnswers`, with `out` and `changed`
unfoldable pub rewrite_from : (Bytes → Bool) → List Rr → Bytes → List Rr → Bool → List Rr × Bool
rewrite_from match [] ip_a out changed = (out, changed)
rewrite_from match (rr ∷ rrs) ip_a out changed =
    let kept = rewrite_from match rrs ip_a (out ++ (rr ∷ [])) changed in
    let replaced = rewrite_from match rrs ip_a (out ++ (local_a rr ip_a ∷ [])) true in
    let dropped = rewrite_from match rrs ip_a out true in
    if matched match rr
    then if rr.rr_type == type_a
      then replaced
      else if rr.rr_type == type_aaaa
      then dropped
      else if rr.rr_type == type_cname
      then replaced
      else if rr.rr_type == type_https || rr.rr_type == type_svcb
      then dropped
      else kept
    else kept

unfoldable pub rewrite_answers : (Bytes → Bool) → List Rr → Bytes → List Rr × Bool
unfolding rewrite_from
rewrite_answers match answers ip_a = rewrite_from match answers ip_a [] false

-- What the handler uses of a `mdns.Msg`.
pub record Msg : Type 0 where
  pub rcode : ℕ
  pub recursion_available : Bool
  pub authoritative : Bool
  pub truncated : Bool
  pub answer : List Rr
  pub ns : List Rr
  pub extra : List Rr

-- The reply after `SetReply`
abbrev pub empty_reply : Msg
empty_reply = record {
  rcode = 0;
  recursion_available = false;
  authoritative = false;
  truncated = false;
  answer = [];
  ns = [];
  extra = [];
}

-- The fields that the handler copies from the upstream's message; `none` is nil.
abbrev pub merge : Option Msg → Msg
merge none = empty_reply
merge (some up) = record {
  rcode = up.rcode;
  recursion_available = up.recursion_available;
  authoritative = up.authoritative;
  truncated = up.truncated;
  answer = [] ++ up.answer;
  ns = [] ++ up.ns;
  extra = [] ++ up.extra;
}

-- The handler of `StartServer`: the message that it writes.
unfoldable pub handle_query : (Bytes → Bool) → Bytes → Option Msg → Msg
unfolding rewrite_answers
handle_query match ip_a up =
    let resp = merge up in
    let (out, changed) = rewrite_answers match resp.answer ip_a in
    if changed then record resp { answer = out; rcode = 0 } else resp

-- What `c.Exchange` returns: an error, or a message that may be nil.
pub data Exchanged : Type 0 where
  failed : Exchanged
  received : Option Msg → Exchanged

abbrev received_of : Exchanged → Option Msg
received_of failed = none
received_of (received m) = m

-- `queryUpstreamMsg`, over what the exchanges by UDP and by TCP return
unfoldable pub query_upstream_msg : Exchanged → Exchanged → Option Msg
query_upstream_msg failed tcp = received_of tcp
query_upstream_msg (received none) tcp = none
query_upstream_msg (received (some m)) tcp = if m.truncated then received_of tcp else some m

-- The inner loop of `filterAnswers` over the types
abbrev pub has_type : List ℕ → ℕ → Bool
has_type [] t = false
has_type (x ∷ xs) t = t == x || has_type xs t

unfoldable pub filter_answers : List Rr → Bytes → List ℕ → List Rr
unfolding ◌===◌
filter_answers [] name types = []
filter_answers (rr ∷ rrs) name types =
    let rest = filter_answers rrs name types in
    if equal_fold rr.name name && has_type types rr.rr_type then rest else rr ∷ rest

unfoldable pub filter_answers_by_name : List Rr → Bytes → List Rr
unfolding ◌===◌
filter_answers_by_name [] name = []
filter_answers_by_name (rr ∷ rrs) name =
    let rest = filter_answers_by_name rrs name in
    if not (equal_fold rr.name name) then rr ∷ rest else rest

-- `chooseBypassIPv4FromAddrs`: the address of each `*net.IPNet`, in order; `none` is nil, and so is
-- the empty address. Other kinds of `net.Addr` are `none` in the list.
unfoldable pub choose_bypass_ipv4_from_addrs : List (Option Bytes) → Option Bytes
choose_bypass_ipv4_from_addrs [] = none
choose_bypass_ipv4_from_addrs (none ∷ addrs) = choose_bypass_ipv4_from_addrs addrs
choose_bypass_ipv4_from_addrs (some ip ∷ addrs) =
    let rest = choose_bypass_ipv4_from_addrs addrs in
    elim (to4 ip) [
      | none ↦ rest
      | some v4 ↦
          if is_loopback v4 || is_unspecified v4 || is_link_local_unicast v4 then rest else some v4
    ]

-- `net.Interface`; `none` is an error of `Addrs()`
pub record NetIface : Type 0 where
  pub up : Bool
  pub loopback : Bool
  pub addrs : Option (List (Option Bytes))

unfoldable pub find_bypass_ip : List NetIface → Option Bytes
unfolding choose_bypass_ipv4_from_addrs
find_bypass_ip [] = none
find_bypass_ip (inf ∷ infs) =
    let rest = find_bypass_ip infs in
    if not inf.up || inf.loopback then rest else elim inf.addrs [
      | none ↦ rest
      | some addrs ↦ elim (choose_bypass_ipv4_from_addrs addrs) [ none ↦ rest | some ip ↦ some ip ]
    ]

abbrev enabling : List Bytes
enabling =
    codes "1" ∷ codes "true" ∷ codes "yes" ∷ codes "on" ∷ codes "enable" ∷ codes "enabled" ∷ []

-- `value` is what `os.Getenv` returned.
unfoldable pub env_enabled : Bytes → Bool
unfolding any ◌===◌
env_enabled value = any (λ t. to_lower (trim_space value) === t) enabling

abbrev pub localhost : Bytes
localhost = 127 ∷ 0 ∷ 0 ∷ 1 ∷ []

-- The address that `StartServer` answers with
unfoldable pub answer_ip : Bytes → List NetIface → Bytes
answer_ip value infs =
    if env_enabled value
    then elim (find_bypass_ip infs) [
      | none ↦ localhost
      | some bp ↦ elim (to4 bp) [ none ↦ localhost | some v4 ↦ v4 ]
    ]
    else localhost
