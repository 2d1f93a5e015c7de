-- ===== src/Tests/Openwrt.antt =====
-- A router whose interface `wan` has an IPv4 address and two IPv6 prefixes, after one request that it
-- refuses. Addresses and ranges are compared as texts.
use dockerset.Base.{
  ℕ, ◌≡◌, refl, Bool, true, [], ◌∷◌, ◌++◌, none, some, Bytes, codes, ◌==◌, ◌===◌, if◌then◌else◌,
  List, ◌<◌, Option,
}
use dockerset.Openwrt.{
  Address, WelcomeElement, received, Cidrs, cidrs, cidr_of, get_cidr, Router, access_denied,
  http_handler,
}
use dockerset.Openwrt.Laws.{OneMore, IsRange, ipv4_of, all_interfaces, get_cidr-OneMore}
use dockerset.Openwrt.Sound.{http_handler-IsRange, IsToken, IsFaultless}

abbrev v4 : Address
v4 = record { address = codes "10.0.0.1"; mask = codes "24" }

abbrev first : Address
first = record { address = codes "fd00::"; mask = codes "64" }

abbrev second : Address
second = record { address = codes "fd01::"; mask = codes "64" }

abbrev wan : Bytes
wan = codes "wan"

abbrev response : List WelcomeElement
response =
    record {
      error = none;
      result =
          none
          ∷ some (
              record {
                name = wan;
                ipv4_address = v4 ∷ [];
                ipv6_prefix_assignment = first ∷ second ∷ [];
              }
              ∷ [])
          ∷ [];
    }
    ∷ []

abbrev room : ℕ → Bool
room n = n == 3

abbrev lists : Cidrs
lists = record { ipv4 = cidr_of v4 ∷ []; ipv6 = cidr_of v4 ∷ cidr_of second ∷ [] }

got : get_cidr room wan (received response) ≡ cidrs lists
unfolding get_cidr ◌===◌
got = refl

-- The first prefix is lost.
get_cidr-OneMore_example :
    (lists.ipv4 ≡ ipv4_of wan (all_interfaces response)) × OneMore (IsRange wan response) lists
get_cidr-OneMore_example = get_cidr-OneMore room wan response lists got

abbrev router : Router
router = record {
  fetch = λ n token.
      if n == 0
      then received (record { error = some access_denied; result = [] } ∷ [])
      else received response;
  auth = λ n. some (codes "t");
}

abbrev whole : Bytes → Option Bytes
whole s = some s

abbrev at_home : Bytes → Bytes → Bool
at_home range ip = range === ip ++ codes "/24"

handled : http_handler whole whole at_home room router wan (codes "10.0.0.1") [] ≡ (true, codes "t")
unfolding http_handler get_cidr ◌===◌
handled = refl

http_handler-IsRange_example :
    (ip : Bytes) × (ws : List WelcomeElement) × (cidr : Bytes) × (r : Bytes) × (whole
        (codes "10.0.0.1")
      ≡ some ip)
    × ((k : ℕ) × (used : Bytes) × (k < 3)
        × IsToken router [] k used
        × (router.fetch k used ≡ received ws))
    × IsFaultless ws
    × IsRange wan ws cidr
    × (whole cidr ≡ some r)
    × (at_home r ip ≡ true)
http_handler-IsRange_example =
    http_handler-IsRange whole whole at_home room router wan (codes "10.0.0.1") [] (codes "t")
      handled
