-- ===== src/Geo/Resolv.antt =====
-- `EnsureHostsAndResolv` of geo-sni-proxy/internal/dns/dns.go, on ASCII text. The log is left out.
pub mod Hosts
pub mod Lines
pub mod Server
use dockerset.Base.{
  ℕ, Bool, true, false, not, ◌&&◌, ◌||◌, List, [], ◌∷◌, ◌++◌, map, Option, none, some, ◌==◌, ◌===◌,
  if◌then◌else◌, Bytes, length, codes, any,
}
use dockerset.Go.Text.{is_space, trim_space, has_prefix, contains, split, join}

-- `/etc/hosts` and `/etc/resolv.conf`
pub record Etc : Type 0 where
  pub hosts : Bytes
  pub resolv : Bytes

-- Which steps fail. A write that fails leaves what is given here.
pub record Faults : Type 0 where
  pub hosts_unread : Bool
  pub resolv_unread : Bool
  pub hosts_unappended : Option Bytes
  pub resolv_unwritten : Option Bytes

pub data Ensured : Type 0 where
  upstream : Bytes → Ensured
  failed : Ensured

abbrev pub newline : ℕ
newline = 10

abbrev pub domain : Bytes
domain = codes "upstream-dns.geo-sni-proxy"

abbrev pub local_server : Bytes
local_server = codes "nameserver 127.0.0.1"

abbrev pub add_word : Bytes → List Bytes → List Bytes
add_word [] words = words
add_word (c ∷ w) words = (c ∷ w) ∷ words

unfoldable pub fields_from : Bytes → Bytes → List Bytes
unfolding is_space
fields_from word [] = add_word word []
fields_from word (c ∷ s) =
    let ended = fields_from [] s in
    let longer = fields_from (word ++ (c ∷ [])) s in
    if is_space c then add_word word ended else longer

-- strings.Fields(s)
abbrev pub fields : Bytes → List Bytes
fields s = fields_from [] s

-- `t == "" || strings.HasPrefix(t, "#")`
unfoldable pub passes_over : Bytes → Bool
unfolding has_prefix
passes_over t = length t == 0 || has_prefix t (codes "#")

-- The address of a line that names the domain
abbrev pub address_at : List Bytes → Option Bytes
address_at [] = none
address_at (address ∷ names) = if any (λ name. name === domain) names then some address else none

unfoldable pub line_address : Bytes → Option Bytes
unfolding passes_over fields_from trim_space any ◌===◌
line_address l = if passes_over (trim_space l) then none else address_at (fields (trim_space l))

-- The loop over `/etc/hosts`
unfoldable pub find_domain : List Bytes → Option Bytes
unfolding line_address
find_domain [] = none
find_domain (l ∷ ls) =
    let rest = find_domain ls in elim (line_address l) [ none ↦ rest | some address ↦ some address ]

abbrev pub server_at : List Bytes → Option Bytes
server_at [] = none
server_at (word ∷ []) = none
server_at (word ∷ ip ∷ words) =
    if ip === codes "127.0.0.1" || ip === codes "0.0.0.0" then none else some ip

unfoldable pub is_server_line : Bytes → Bool
unfolding trim_space has_prefix
is_server_line l = has_prefix (trim_space l) (codes "nameserver")

unfoldable pub line_server : Bytes → Option Bytes
unfolding is_server_line passes_over fields_from ◌===◌
line_server l =
    if not (passes_over (trim_space l)) && is_server_line l
    then server_at (fields (trim_space l))
    else none

-- The loop over `/etc/resolv.conf`, and the address where it finds none
unfoldable pub find_upstream : List Bytes → Bytes
unfolding line_server
find_upstream [] = codes "8.8.8.8"
find_upstream (l ∷ ls) =
    let rest = find_upstream ls in elim (line_server l) [ none ↦ rest | some ip ↦ ip ]

unfoldable pub append_line : Bytes → Bytes
append_line address = address ++ (b' ' ∷ (domain ++ (newline ∷ [])))

unfoldable pub localised : Bytes → Bytes
unfolding is_server_line
localised l = if is_server_line l then local_server else l

abbrev pub out_lines : List Bytes → List Bytes
out_lines [] = local_server ∷ []
out_lines (l ∷ ls) = l ∷ ls

-- The new content of `/etc/resolv.conf`
unfoldable pub new_resolv : Bytes → Bytes
unfolding localised split join contains
new_resolv resolv =
    let content = join (out_lines (map localised (split resolv newline))) newline in
    if contains content local_server then content else local_server ++ (newline ∷ content)

-- From the write of `/etc/resolv.conf` on
abbrev pub write_resolv : Bytes → Option Bytes → Etc → Ensured × Etc
write_resolv address none etc = (upstream address, record etc { resolv = new_resolv etc.resolv })
write_resolv address (some left) etc = (failed, record etc { resolv = left })

-- From the write of `/etc/hosts` on, by what it leaves if it fails
abbrev pub append_hosts : Bytes → Option Bytes → Option Bytes → Etc → Ensured × Etc
append_hosts address (some left) unwritten etc = (failed, record etc { hosts = left })
append_hosts address none unwritten etc =
    write_resolv address unwritten (record etc { hosts = etc.hosts ++ append_line address })

unfoldable pub ensure_hosts_and_resolv : Faults → Etc → Ensured × Etc
unfolding find_domain find_upstream append_line new_resolv split
ensure_hosts_and_resolv faults etc =
    if faults.hosts_unread then (failed, etc) else elim (find_domain (split etc.hosts newline)) [
      | some address ↦ (upstream address, etc)
      | none ↦
          if faults.resolv_unread
          then (failed, etc)
          else append_hosts (find_upstream (split etc.resolv newline)) faults.hosts_unappended
              faults.resolv_unwritten etc
    ]
