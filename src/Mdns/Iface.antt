-- ===== src/Mdns/Iface.antt =====
-- Interfaces: `ifaceUsableIPs`, `sourceIPMatchesInterface`, `parseInterfaceAllowList` and
-- `selectInterfaces`. A nil address is the empty list.
pub mod Select
pub mod First
use dockerset.Base.{
  ℕ, zero, suc, ◌+◌, Bool, true, false, not, ◌&&◌, ◌||◌, List, [], ◌∷◌, ◌++◌, Option, none, some,
  leb, ◌==◌, ◌===◌, if◌then◌else◌, Bytes, length, get_or, any, Outcome, ok, err,
}
use dockerset.Go.Text.{trim_space, split}
use dockerset.Go.Net.{
  to4, to16, is_some, is_loopback, is_unspecified, is_multicast, is_link_local_unicast, IpNet,
  contains_ip,
}

-- What a `net.Addr` of an interface can be.
pub data Addr : Type 0 where
  ip_net : IpNet → Addr
  ip_addr : Bytes → Addr
  other_addr : Addr

-- `net.Interface`, with what `Addrs()` returns; `none` is its error.
pub record Iface : Type 0 where
  pub name : Bytes
  pub up : Bool
  pub loopback : Bool
  pub multicast : Bool
  pub addrs : Option (List Addr)

abbrev pub addr_ip : Addr → Bytes
addr_ip (ip_net n) = n.ip
addr_ip (ip_addr ip) = ip
addr_ip other_addr = []

unfoldable pub is_usable_ipv6 : Bytes → Bool
is_usable_ipv6 ip =
    if not (is_some (to16 ip)) || is_some (to4 ip)
    then false
    else not (is_loopback ip) && not (is_link_local_unicast ip)

-- The address that the loop of `ifaceUsableIPs` appends; `none` is `continue`.
unfoldable pub usable_ip : Bool → Bytes → Option Bytes
unfolding is_usable_ipv6
usable_ip want_v6 ip =
    if length ip == 0 || is_unspecified ip || is_multicast ip
    then none
    else if want_v6
    then (if is_some (to4 ip) || not (is_usable_ipv6 ip) then none else some ip)
    else elim (to4 ip) [ none ↦ none | some v4 ↦ if get_or v4 0 0 == 127 then none else some v4 ]

unfoldable pub usable_from : Bool → List Addr → List Bytes → List Bytes
unfolding usable_ip
usable_from want_v6 [] out = out
usable_from want_v6 (a ∷ addrs) out = elim (usable_ip want_v6 (addr_ip a)) [
  | none ↦ usable_from want_v6 addrs out
  | some ip ↦
      if leb 3 (length (out ++ (ip ∷ [])))
      then out ++ (ip ∷ [])
      else usable_from want_v6 addrs (out ++ (ip ∷ []))
]

unfoldable pub iface_usable_ips : Iface → Bool → List Bytes
unfolding usable_from
iface_usable_ips iface want_v6 = elim iface.addrs [
  | none ↦ []
  | some addrs ↦ usable_from want_v6 addrs []
]

unfoldable pub addr_matches : Bytes → Bool → Addr → Bool
addr_matches src ipv6 (ip_net n) =
    if ipv6
    then not (is_some (to4 src))
      && not (is_some (to4 n.ip))
      && is_some (to16 n.ip)
      && contains_ip n src
    else elim (to4 src) [ none ↦ false | some src4 ↦ is_some (to4 n.ip) && contains_ip n src4 ]
addr_matches src ipv6 (ip_addr ip) = false
addr_matches src ipv6 other_addr = false

unfoldable pub source_ip_matches_interface : Iface → Bytes → Bool → Bool
unfolding addr_matches
source_ip_matches_interface iface src ipv6 =
    if length src == 0
    then false
    else elim iface.addrs [ none ↦ false | some addrs ↦ any (addr_matches src ipv6) addrs ]

unfoldable pub member : Bytes → List Bytes → Bool
member name [] = false
member name (n ∷ ns) = name === n || member name ns

-- The loop of `parseInterfaceAllowList`; a map to `struct{}` is the list of its keys.
unfoldable pub allow_from : List Bytes → List Bytes → List Bytes
unfolding member
allow_from [] allow = allow
allow_from (part ∷ parts) allow =
    let name = trim_space part in
    allow_from parts (
      if length name == 0 then allow else if member name allow then allow else allow ++ (name ∷ []))

-- `none` is the nil map.
unfoldable pub parse_interface_allow_list : Bytes → Option (List Bytes)
unfolding allow_from
parse_interface_allow_list v =
    if length (trim_space v) == 0
    then none
    else let allow = allow_from (split (trim_space v) b',') [] in
      if length allow == 0 then none else some allow

pub data SelectError : Type 0 where
  interfaces_failed no_usable_interfaces : SelectError
  interface_not_found : Bytes → SelectError

unfoldable pub is_allowed : Option (List Bytes) → Bytes → Bool
unfolding member
is_allowed none name = true
is_allowed (some allow) name = member name allow

abbrev pub is_candidate : Iface → Bool
is_candidate iface = iface.up && not iface.loopback && iface.multicast

-- The loop over the interfaces: what is selected, and the names in `seenAllowed`.
unfoldable pub select_from : Option (List Bytes) → List Iface → List Iface × List Bytes
unfolding is_allowed
select_from allow [] = ([], [])
select_from allow (iface ∷ ifaces) =
    let (selected, seen) = select_from allow ifaces in
    if not (is_allowed allow iface.name)
    then (selected, seen)
    else (if is_candidate iface then iface ∷ selected else selected, iface.name ∷ seen)

-- The first allowed name that no interface has. (Go visits the map in any order.)
unfoldable pub first_missing : List Bytes → List Bytes → Option Bytes
unfolding member
first_missing [] seen = none
first_missing (name ∷ names) seen =
    let rest = first_missing names seen in if member name seen then rest else some name

abbrev missing : Option (List Bytes) → List Bytes → Option Bytes
missing none seen = none
missing (some allow) seen = first_missing allow seen

-- `ifaces` is what `net.Interfaces()` returned; `none` is its error.
unfoldable pub select_interfaces :
    Option (List Iface) → Option (List Bytes) → Outcome SelectError (List Iface)
unfolding select_from first_missing
select_interfaces none allow = err interfaces_failed
select_interfaces (some ifaces) allow =
    let (selected, seen) = select_from allow ifaces in
    elim (missing allow seen) [
      | some name ↦ err (interface_not_found name)
      | none ↦ if length selected == 0 then err no_usable_interfaces else ok selected
    ]
