-- ===== src/Mdns/Hostname/Label.antt =====
-- A normalised hostname is one label, and `encodeName` accepts it under `.local`.
use dockerset.Base.{
  ℕ, ◌%◌, ◌≤◌, ◌<◌, ◌≡◌, refl, true, false, [], ◌∷◌, ◌++◌, arith, ◌==◌, Bytes, length,
  length-append, All, append_assoc, codes, ok,
}
use dockerset.Go.Text.{lower, to_lower, trim_space, trim_right, split}
use dockerset.Go.Text.Laws.{split-append}
use dockerset.Mdns.Hostname.{is_label_char, check_chars, normalize_hostname}
use dockerset.Mdns.Name.{encode_name}

-- 1 to 63 bytes, each a lower-case letter, a digit or a dash
pub record IsHostname (name : Bytes) : Type 0 where
  pub nonempty : 0 < length name
  pub short : length name ≤ 63
  pub chars : All (λ c. is_label_char c ≡ true) name

check_chars-ok :
    (name rest out : Bytes)
    → check_chars name rest ≡ ok out
    → All (λ c. is_label_char c ≡ true) rest × (out ≡ name)
unfolding check_chars
check_chars-ok name [] out h = (tt, ground arith)
check_chars-ok name (r ∷ rest) out h = ground (arith, check_chars-ok name rest out)

-- Whatever `normalizeHostname` returns is a hostname label.
pub normalize_hostname-IsHostname :
    (v name : Bytes) → normalize_hostname v ≡ ok name → IsHostname name
unfolding normalize_hostname
normalize_hostname-IsHostname v name h =
    let s = trim_space (to_lower v) in ground (arith, check_chars-ok s s name)

check_chars-All :
    (name rest : Bytes) → All (λ c. is_label_char c ≡ true) rest → check_chars name rest ≡ ok name
unfolding check_chars
check_chars-All name [] h = refl
check_chars-All name (r ∷ rest) h = ground (arith, check_chars-All name rest h.1)

lower-label_char : (c : ℕ) → is_label_char c ≡ true → lower c ≡ c
unfolding is_label_char lower
lower-label_char c h = ground arith

pub to_lower-label : (s : Bytes) → All (λ c. is_label_char c ≡ true) s → to_lower s ≡ s
to_lower-label [] h = refl
to_lower-label (c ∷ s) h = cc (lower-label_char c h.0, to_lower-label s h.1)

trim_right-label : (s : Bytes) → All (λ c. is_label_char c ≡ true) s → trim_right s ≡ s
unfolding trim_space is_label_char
trim_right-label [] h = refl
trim_right-label (c ∷ s) h = ground (arith, trim_right-label s h.1)

trim_space-label : (s : Bytes) → All (λ c. is_label_char c ≡ true) s → trim_space s ≡ s
unfolding trim_space is_label_char
trim_space-label [] h = refl
trim_space-label (c ∷ s) h = ground (arith, trim_right-label (c ∷ s) h)

-- A hostname label is normalised already, so normalising twice is normalising once.
pub normalize_hostname-IsHostname_eq :
    (name : Bytes) → IsHostname name → normalize_hostname name ≡ ok name
unfolding normalize_hostname
normalize_hostname-IsHostname_eq name h =
    rw (to_lower-label name h.chars, trim_space-label name h.chars)
      (ground (arith, check_chars-All name name h.chars))

-- `normalizeHostname` is idempotent: what it returns it returns again, unchanged.
pub normalize_hostname_idem :
    (v name : Bytes) → normalize_hostname v ≡ ok name → normalize_hostname name ≡ ok name
normalize_hostname_idem v name h =
    normalize_hostname-IsHostname_eq name (normalize_hostname-IsHostname v name h)

no_dot : (s : Bytes) → All (λ c. is_label_char c ≡ true) s → All (λ c. (c == b'.') ≡ false) s
unfolding is_label_char
no_dot [] h = tt
no_dot (c ∷ s) h = (ground arith, no_dot s h.1)

-- The wire form of a hostname under `.local`
abbrev pub local_wire : Bytes → Bytes
local_wire name = length name ∷ (name ++ (5 ∷ codes "local" ++ (0 ∷ [])))

-- `encodeName` accepts every hostname label under `.local`.
pub encode_name-IsHostname :
    (name : Bytes) → IsHostname name → encode_name (name ++ codes ".local") ≡ ok (local_wire name)
unfolding encode_name split
encode_name-IsHostname name h = rw (split-append name (codes "local") b'.' (no_dot name h.chars)) (
    ground (
      arith,
      h.short,
      h.nonempty,
      length-append (length name % 256 ∷ name) (5 ∷ codes "local"),
      length-append (length name % 256 ∷ name ++ (5 ∷ codes "local")) (0 ∷ []),
      append_assoc (length name % 256 ∷ name) (5 ∷ codes "local") (0 ∷ []),
    ))
