-- ===== src/Go/Net.antt =====
-- Package net: addresses as slices of 4 or 16 bytes.
pub mod Laws
use dockerset.Base.{
  ◌/◌, Bool, true, false, not, ◌&&◌, ◌||◌, [], ◌∷◌, ◌++◌, Option, none, some, ◌==◌, ◌===◌,
  if◌then◌else◌, Bytes, length, take, drop, get_or,
}
use Prim.Native.Nat.{bit_and}

-- The prefix of an IPv4 address in a slice of 16 bytes.
abbrev pub v4_in_v6 : Bytes
v4_in_v6 = 0 ∷ 0 ∷ 0 ∷ 0 ∷ 0 ∷ 0 ∷ 0 ∷ 0 ∷ 0 ∷ 0 ∷ 255 ∷ 255 ∷ []

-- ip.To4(); `none` is nil
unfoldable pub to4 : Bytes → Option Bytes
to4 ip =
    if length ip == 4
    then some ip
    else if length ip == 16 && take 12 ip === v4_in_v6
    then some (drop 12 ip)
    else none

-- ip.To16()
unfoldable pub to16 : Bytes → Option Bytes
to16 ip =
    if length ip == 4 then some (v4_in_v6 ++ ip) else if length ip == 16 then some ip else none

abbrev pub is_some : Option Bytes → Bool
is_some none = false
is_some (some ip) = true

abbrev loopback6 : Bytes
loopback6 = 0 ∷ 0 ∷ 0 ∷ 0 ∷ 0 ∷ 0 ∷ 0 ∷ 0 ∷ 0 ∷ 0 ∷ 0 ∷ 0 ∷ 0 ∷ 0 ∷ 0 ∷ 1 ∷ []

abbrev unspecified6 : Bytes
unspecified6 = 0 ∷ 0 ∷ 0 ∷ 0 ∷ 0 ∷ 0 ∷ 0 ∷ 0 ∷ 0 ∷ 0 ∷ 0 ∷ 0 ∷ 0 ∷ 0 ∷ 0 ∷ 0 ∷ []

-- ip.IsLoopback()
unfoldable pub is_loopback : Bytes → Bool
is_loopback ip = elim (to4 ip) [ some v4 ↦ get_or v4 0 0 == 127 | none ↦ ip === loopback6 ]

-- ip.IsUnspecified()
unfoldable pub is_unspecified : Bytes → Bool
is_unspecified ip = elim (to4 ip) [
  | some v4 ↦ v4 === (0 ∷ 0 ∷ 0 ∷ 0 ∷ [])
  | none ↦ ip === unspecified6
]

-- ip.IsMulticast(); `b & 0xf0` is read as `b / 16`
unfoldable pub is_multicast : Bytes → Bool
is_multicast ip = elim (to4 ip) [
  | some v4 ↦ get_or v4 0 0 / 16 == 14
  | none ↦ length ip == 16 && get_or ip 0 0 == 255
]

-- ip.IsLinkLocalUnicast(); `b & 0xc0` is read as `b / 64`
unfoldable pub is_link_local_unicast : Bytes → Bool
is_link_local_unicast ip = elim (to4 ip) [
  | some v4 ↦ get_or v4 0 0 == 169 && get_or v4 1 0 == 254
  | none ↦ length ip == 16 && get_or ip 0 0 == 254 && get_or ip 1 0 / 64 == 2
]

-- net.IPNet
pub record IpNet : Type 0 where
  pub ip : Bytes
  pub mask : Bytes

-- networkNumberAndMask
unfoldable pub network : IpNet → Option (Bytes × Bytes)
network n =
    let number : Bytes = elim (to4 n.ip) [ some v4 ↦ v4 | none ↦ n.ip ] in
    if not (length number == 4 || length number == 16)
    then none
    else if length n.mask == 4 && length number == 4
    then some (number, n.mask)
    else if length n.mask == 16
    then some (number, if length number == 4 then drop 12 n.mask else n.mask)
    else none

-- every byte of the two addresses agrees under the mask
unfoldable pub agrees : Bytes → Bytes → Bytes → Bool
agrees [] mask ip = true
agrees (n ∷ ns) [] ip = true
agrees (n ∷ ns) (m ∷ ms) [] = true
agrees (n ∷ ns) (m ∷ ms) (x ∷ xs) = bit_and n m == bit_and x m && agrees ns ms xs

-- n.Contains(ip)
unfoldable pub contains_ip : IpNet → Bytes → Bool
unfolding network agrees
contains_ip n ip =
    let x : Bytes = elim (to4 ip) [ some v4 ↦ v4 | none ↦ ip ] in
    elim (network n) [
      | none ↦ length x == 0
      | some (number, mask) ↦ length x == length number && agrees number mask x
    ]
