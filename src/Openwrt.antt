-- ===== src/Openwrt.antt =====
-- The address check of openwrt_cidr_checker/checker/main.go. What the router answers, `net.ParseIP`
-- and the package iprange are arguments. A mask is the text that `%d` prints, and an error message
-- holds no verb of `fmt.Errorf`.
pub mod Laws
pub mod Sound
use dockerset.Base.{
  ℕ, zero, suc, ◌+◌, Bool, true, false, not, ◌&&◌, ◌||◌, List, [], ◌∷◌, ◌++◌, Option, none, some,
  ◌===◌, if◌then◌else◌, Bytes, length, ◌==◌, codes,
}

pub record Address : Type 0 where
  pub address : Bytes
  pub mask : Bytes

-- `Interface`, of `network.interface dump`
pub record RouterInterface : Type 0 where
  pub name : Bytes
  pub ipv4_address : List Address
  pub ipv6_prefix_assignment : List Address

-- `WelcomeElement`: the message of its error, and its results, each nil or with its interfaces
pub record WelcomeElement : Type 0 where
  pub error : Option Bytes
  pub result : List (Option (List RouterInterface))

-- What `doFetch` and `json.Unmarshal` give
pub data Fetched : Type 0 where
  unsent : Bytes → Fetched
  unparsed : Fetched
  received : List WelcomeElement → Fetched

-- The lists that `getCIDR` builds
pub record Cidrs : Type 0 where
  pub ipv4 : List Bytes
  pub ipv6 : List Bytes

pub data CidrResult : Type 0 where
  cidrs : Cidrs → CidrResult
  failure : Bytes → CidrResult

abbrev pub cidr_of : Address → Bytes
cidr_of addr = addr.address ++ codes "/" ++ addr.mask

abbrev pub no_cidrs : Cidrs
no_cidrs = record { ipv4 = []; ipv6 = [] }

-- `room n`: the array of a slice that grew from nil to length `n`, one append at a time, has room for
-- one more.
module _ (room : ℕ → Bool) where
  -- `append(ipv4, cidr)` has room to write in the array of `ipv4`. Where `ipv6` came of such an append
  -- to the same slice, that is where its last element is.
  unfoldable pub add_ipv4 : List Address → Cidrs → Cidrs
  add_ipv4 [] c = c
  add_ipv4 (addr ∷ addrs) c =
      let longer = c.ipv4 ++ (cidr_of addr ∷ []) in
      add_ipv4 addrs record {
        ipv4 = longer;
        ipv6 =
            if room (length c.ipv4) && (length c.ipv6 == suc (length c.ipv4))
            then longer
            else c.ipv6;
      }

  -- `ipv6 = append(ipv4, cidr)`
  unfoldable pub add_ipv6 : List Address → Cidrs → Cidrs
  add_ipv6 [] c = c
  add_ipv6 (addr ∷ addrs) c = add_ipv6 addrs (record c { ipv6 = c.ipv4 ++ (cidr_of addr ∷ []) })

  unfoldable pub add_interface : Bytes → RouterInterface → Cidrs → Cidrs
  unfolding add_ipv4 add_ipv6 ◌===◌
  add_interface iface i c =
      if i.name === iface then add_ipv6 i.ipv6_prefix_assignment (add_ipv4 i.ipv4_address c) else c

  unfoldable pub add_interfaces : Bytes → List RouterInterface → Cidrs → Cidrs
  unfolding add_interface
  add_interfaces iface [] c = c
  add_interfaces iface (i ∷ is) c = add_interfaces iface is (add_interface iface i c)

  unfoldable pub add_results : Bytes → List (Option (List RouterInterface)) → Cidrs → Cidrs
  unfolding add_interfaces
  add_results iface [] c = c
  add_results iface (none ∷ rs) c = add_results iface rs c
  add_results iface (some is ∷ rs) c = add_results iface rs (add_interfaces iface is c)

  unfoldable pub add_elements : Bytes → List WelcomeElement → Cidrs → CidrResult
  unfolding add_results
  add_elements iface [] c = cidrs c
  add_elements iface (w ∷ ws) c =
      let rest = add_elements iface ws (add_results iface w.result c) in
      elim w.error [ none ↦ rest | some message ↦ failure message ]

  unfoldable pub get_cidr : Bytes → Fetched → CidrResult
  unfolding add_elements
  get_cidr iface (unsent message) = failure message
  get_cidr iface unparsed = cidrs no_cidrs
  get_cidr iface (received response) = add_elements iface response no_cidrs

abbrev pub access_denied : Bytes
access_denied = codes "Access denied"

-- The router: what it answers to the request of a round with a token, and the token that `doAuth`
-- gets after the round.
pub record Router : Type 0 where
  pub fetch : ℕ → Bytes → Fetched
  pub auth : ℕ → Option Bytes

-- What the loop of `httpHandler` ends with: an answer at once, or the lists; and the token
pub data Looked : Type 0 where
  refused : Bytes → Looked
  looked : Cidrs → Bytes → Looked

abbrev pub failed_count_limit : ℕ
failed_count_limit = 3

-- The loop, with the rounds that are left of the three; `round` counts them.
unfoldable pub look : (ℕ → Bool) → Router → Bytes → ℕ → ℕ → Bytes → Looked
unfolding get_cidr ◌===◌
look room router iface zero round token = looked no_cidrs token
look room router iface (suc left) round token =
    elim (get_cidr room iface (router.fetch round token)) [
      | cidrs c ↦ looked c token
      | failure message ↦
          if message === access_denied
          then elim (router.auth round) [
            | none ↦ refused token
            | some fresh ↦ look room router iface left (suc round) fresh
          ]
          else refused token
    ]

module _ {Ip Range : Type 0} (parse_ip : Bytes → Option Ip) (parse_range : Bytes → Option Range)
    (contains : Range → Ip → Bool) where
  unfoldable pub parse_ranges : List Bytes → List Range
  parse_ranges [] = []
  parse_ranges (c ∷ cs) =
      let rest = parse_ranges cs in elim (parse_range c) [ none ↦ rest | some r ↦ r ∷ rest ]

  unfoldable pub any_contains : List Range → Ip → Bool
  any_contains [] ip = false
  any_contains (r ∷ rs) ip = contains r ip || any_contains rs ip

  -- The answer from the lists: `STATUS_OK` or `STATUS_FAIL`
  unfoldable pub is_inside : Cidrs → Ip → Bool
  unfolding parse_ranges any_contains
  is_inside c ip = any_contains (parse_ranges (c.ipv4 ++ c.ipv6)) ip

  abbrev pub answer : Ip → Looked → Bool × Bytes
  answer ip (refused token) = (false, token)
  answer ip (looked c token) = (is_inside c ip, token)

  -- Whether the status is `STATUS_OK`, and the token that is kept for the next request
  unfoldable pub http_handler : (ℕ → Bool) → Router → Bytes → Bytes → Bytes → Bool × Bytes
  unfolding look is_inside
  http_handler room router iface real_ip token =
      if length real_ip == 0 then (false, token) else elim (parse_ip real_ip) [
        | none ↦ (false, token)
        | some ip ↦ answer ip (look room router iface failed_count_limit 0 token)
      ]
