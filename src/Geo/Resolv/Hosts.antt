-- ===== src/Geo/Resolv/Hosts.antt =====
-- The line that is appended to `/etc/hosts` is found again.
use dockerset.Base.{
  ℕ, ◌≡◌, refl, sym, ap, ◌∙◌, inl, inr, false, not, ◌&&◌, ◌||◌, List, [], ◌∷◌, ◌++◌, append_assoc,
  append-nil, Option, none, some, arith, ◌==◌, ◌===◌, Bytes, codes, Bool-cases, All, All-append,
  Option-cases, ◌⊎◌,
}
use dockerset.Go.Text.{is_space, trim_right, trim_space, has_prefix, split, is_empty}
use dockerset.Go.Text.Laws.{split_one, trim_space-append, split-split}
use dockerset.Geo.Resolv.{
  Etc, Faults, upstream, newline, domain, add_word, fields_from, fields, passes_over, address_at,
  line_address, find_domain, server_at, is_server_line, line_server, find_upstream, append_line,
  write_resolv, append_hosts, ensure_hosts_and_resolv,
}

abbrev pub IsWord : Bytes → Type 0
IsWord w = All (λ c. is_space c ≡ false) w

fields_from-append :
    (word w s : Bytes) → IsWord w → fields_from word (w ++ s) ≡ fields_from (word ++ w) s
unfolding fields_from
fields_from-append word [] s plain = rw append-nil refl
fields_from-append word (c ∷ w) s (no_space, plain) = rw (no_space) (
    fields_from-append (word ++ (c ∷ [])) w s plain
    ∙ ap (λ (x : Bytes). fields_from x s) (append_assoc word (c ∷ []) w))

-- A word, a space and another word are these two fields.
fields-two :
    (a b : ℕ) (u w : Bytes)
    → IsWord (a ∷ u)
    → IsWord (b ∷ w)
    → fields ((a ∷ u) ++ (b' ' ∷ (b ∷ w))) ≡ (a ∷ u) ∷ (b ∷ w) ∷ []
unfolding fields_from
fields-two a b u w plain_u plain_w =
    fields_from-append [] (a ∷ u) (b' ' ∷ (b ∷ w)) plain_u
    ∙ ap (add_word (a ∷ u)) (
        ap (λ (x : Bytes). fields_from [] x) (sym (append-nil (b ∷ w)))
        ∙ fields_from-append [] (b ∷ w) [] plain_w)

-- Every field is a word, and none is empty.
IsField : Bytes → Type 0
IsField w = IsWord w × (is_empty w ≡ false)

add_word-All :
    (w : Bytes) (ws : List Bytes) → IsWord w → All IsField ws → All IsField (add_word w ws)
unfolding IsField
add_word-All [] ws plain rest = rest
add_word-All (c ∷ w) ws plain rest = ((plain, refl), rest)

fields_from-All : (word s : Bytes) → IsWord word → All IsField (fields_from word s)
unfolding fields_from IsField
fields_from-All word [] plain = add_word-All word [] plain tt
fields_from-All word (c ∷ s) plain = elim (Bool-cases (is_space c)) [
  | inl ended ↦ rw ended (add_word-All word (fields_from [] s) plain (fields_from-All [] s tt))
  | inr longer ↦ rw longer (
      fields_from-All (word ++ (c ∷ [])) s
        (All-append (λ x. is_space x ≡ false) word (c ∷ []) plain (longer, tt)))
]

server_at-IsField :
    (words : List Bytes) (ip : Bytes) → All IsField words → server_at words ≡ some ip → IsField ip
server_at-IsField [] ip all e = absurd cc
server_at-IsField (w ∷ []) ip all e = absurd cc
server_at-IsField (w ∷ x ∷ words) ip (first, (second, rest)) e =
    elim (Bool-cases (x === codes "127.0.0.1" || x === codes "0.0.0.0")) [
      | inl own ↦ (let wrong : ◌≡◌ {A = Option Bytes} none (some ip) = rw own at e in absurd cc)
      | inr remote ↦
          (let same : ◌≡◌ {A = Option Bytes} (some x) (some ip) = rw remote at e in
            let here : x ≡ ip = cc in rw (sym here) second)
    ]

line_server-IsField : (l ip : Bytes) → line_server l ≡ some ip → IsField ip
unfolding line_server
line_server-IsField l ip e =
    elim (Bool-cases (not (passes_over (trim_space l)) && is_server_line l)) [
      | inl found ↦
          server_at-IsField (fields (trim_space l)) ip (fields_from-All [] (trim_space l) tt)
            (rw found at e)
      | inr none_found ↦
          (let wrong : ◌≡◌ {A = Option Bytes} none (some ip) = rw none_found at e in absurd cc)
    ]

find_upstream-IsField : (ls : List Bytes) → IsField (find_upstream ls)
unfolding find_upstream IsField is_space
find_upstream-IsField [] = ((refl, (refl, (refl, (refl, (refl, (refl, (refl, tt))))))), refl)
find_upstream-IsField (l ∷ ls) = elim (Option-cases (line_server l)) [
  | inl e ↦ rw (e, find_upstream) (find_upstream-IsField ls)
  | inr (ip, e) ↦ rw (e, find_upstream) (line_server-IsField l ip e)
]

find_domain-append :
    (ls ks : List Bytes) → find_domain ls ≡ none → find_domain (ls ++ ks) ≡ find_domain ks
unfolding find_domain
find_domain-append [] ks e = refl
find_domain-append (l ∷ ls) ks e = elim (Option-cases (line_address l)) [
  | inl absent ↦ rw (absent, find_domain) (find_domain-append ls ks (rw (absent, find_domain) at e))
  | inr (address, found) ↦
      (let wrong : ◌≡◌ {A = Option Bytes} (some address) none = rw (found, find_domain) at e in
        absurd cc)
]

find_domain-start : (ls ks : List Bytes) → find_domain (ls ++ ks) ≡ none → find_domain ls ≡ none
unfolding find_domain
find_domain-start [] ks e = refl
find_domain-start (l ∷ ls) ks e = elim (Option-cases (line_address l)) [
  | inl absent ↦ rw (absent, find_domain) (find_domain-start ls ks (rw (absent, find_domain) at e))
  | inr (address, found) ↦
      (let wrong : ◌≡◌ {A = Option Bytes} (some address) none = rw (found, find_domain) at e in
        absurd cc)
]

domain-IsWord : IsWord domain
unfolding is_space
domain-IsWord = search tt

passes_over-append :
    (a : ℕ) (u p : Bytes)
    → has_prefix (a ∷ u) (codes "#") ≡ false
    → passes_over ((a ∷ u) ++ p) ≡ false
unfolding passes_over has_prefix
passes_over-append a u p plain = ground (arith, plain)

-- The appended line is found as it was written.
line_address-append_line :
    (address : Bytes)
    → IsField address
    → has_prefix address (codes "#") ≡ false
    → line_address (address ++ (b' ' ∷ domain)) ≡ some address
unfolding line_address IsField
line_address-append_line [] field plain = absurd cc
line_address-append_line (a ∷ u) ((no_space, word), full) plain =
    let line : Bytes = (a ∷ u) ++ (b' ' ∷ domain) in
    let trimmed : trim_space line ≡ line =
      trim_space-append a u (b' ' ∷ domain) no_space (unfold trim_right in refl) refl in
    let two =
      fields-two a b'u' u (codes "pstream-dns.geo-sni-proxy") (no_space, word) domain-IsWord in
    let kept = passes_over-append a u (b' ' ∷ domain) plain in
    rw (line_address, trimmed, kept) (ap address_at two)

no_newline : (w : Bytes) → IsWord w → All (λ c. (c == newline) ≡ false) w
unfolding is_space
no_newline [] plain = tt
no_newline (c ∷ w) (no_space, plain) = (ground (arith, no_space), no_newline w plain)

-- `/etc/hosts` is empty, or its last line has its end.
abbrev pub EndsLine : Bytes → Type 0
EndsLine hosts = (hosts ≡ []) ⊎ ((front : Bytes) × (hosts ≡ front ++ (newline ∷ [])))

found_first :
    (l address : Bytes) (ks : List Bytes)
    → line_address l ≡ some address
    → find_domain (l ∷ ks) ≡ some address
unfolding find_domain
found_first l address ks found = rw (found, find_domain) refl

appended-find_domain :
    (hosts address : Bytes)
    → find_domain (split hosts newline) ≡ none
    → EndsLine hosts
    → IsField address
    → has_prefix address (codes "#") ≡ false
    → find_domain (split (hosts ++ append_line address) newline) ≡ some address
unfolding append_line IsField
appended-find_domain hosts address absent ends field plain =
    let line : Bytes = address ++ (b' ' ∷ domain) in
    let one : split line newline ≡ line ∷ [] = split_one line newline (
      All-append (λ c. (c == newline) ≡ false) address (b' ' ∷ domain) (no_newline address field.0)
        (refl, no_newline domain domain-IsWord)) in
    let whole : address ++ (b' ' ∷ (domain ++ (newline ∷ []))) ≡ line ++ (newline ∷ []) =
      sym (append_assoc address (b' ' ∷ domain) (newline ∷ [])) in
    let ended : split (line ++ (newline ∷ [])) newline ≡ line ∷ [] ∷ [] =
      split-split line [] newline ∙ (unfold split in ap (λ (x : List Bytes). x ++ ([] ∷ [])) one) in
    let found : find_domain (line ∷ [] ∷ []) ≡ some address =
      found_first line address ([] ∷ []) (line_address-append_line address field plain) in
    elim ends [
      | inl empty ↦ rw (empty, whole, ended) found
      | inr (front, last) ↦
          let ended_front : split (front ++ (newline ∷ [])) newline
              ≡ split front newline ++ ([] ∷ []) =
            unfold split in split-split front [] newline in
          let before : find_domain (split front newline) ≡ none =
            find_domain-start (split front newline) ([] ∷ [])
              (rw ended_front at (rw last at absent)) in
          let parts : split (hosts ++ (line ++ (newline ∷ []))) newline
              ≡ split front newline ++ (line ∷ [] ∷ []) =
            rw last (
              ap (λ (x : Bytes). split x newline)
                (append_assoc front (newline ∷ []) (line ++ (newline ∷ [])))
              ∙ split-split front (line ++ (newline ∷ [])) newline
              ∙ ap (λ (x : List Bytes). split front newline ++ x) ended) in
          rw (whole, parts)
            (find_domain-append (split front newline) (line ∷ [] ∷ []) before ∙ found)
    ]

find_domain-again :
    (later : Faults) (etc : Etc) (address : Bytes)
    → later.hosts_unread ≡ false
    → find_domain (split etc.hosts newline) ≡ some address
    → ensure_hosts_and_resolv later etc ≡ (upstream address, etc)
unfolding ensure_hosts_and_resolv
find_domain-again later etc address readable found = rw (readable, found) refl

write_resolv-hosts :
    (address : Bytes) (o : Option Bytes) (etc : Etc)
    → (write_resolv address o etc).1.hosts ≡ etc.hosts
write_resolv-hosts address none etc = refl
write_resolv-hosts address (some left) etc = refl

appended-hosts :
    (faults : Faults) (etc : Etc)
    → find_domain (split etc.hosts newline) ≡ none
    → faults.hosts_unread ≡ false
    → faults.resolv_unread ≡ false
    → faults.hosts_unappended ≡ none
    → (ensure_hosts_and_resolv faults etc).1.hosts
      ≡ etc.hosts ++ append_line (find_upstream (split etc.resolv newline))
unfolding ensure_hosts_and_resolv
appended-hosts faults etc absent read1 read2 appended =
    let address = find_upstream (split etc.resolv newline) in
    let appending : append_hosts address faults.hosts_unappended faults.resolv_unwritten etc
        ≡ write_resolv address faults.resolv_unwritten
            (record etc { hosts = etc.hosts ++ append_line address }) =
      ap (λ (o : Option Bytes). append_hosts address o faults.resolv_unwritten etc) appended in
    rw (read1, absent, read2, appending)
      (write_resolv-hosts address faults.resolv_unwritten
        (record etc { hosts = etc.hosts ++ append_line address }))

-- Where `EnsureHostsAndResolv` appends to `/etc/hosts`, a later call returns the address that this one
-- found, and changes nothing: also where the write of `/etc/resolv.conf` failed. The file was empty or
-- had an end to its last line, and the address is no comment.
pub ensure_hosts_and_resolv-appended :
    (faults later : Faults) (etc : Etc)
    → find_domain (split etc.hosts newline) ≡ none
    → EndsLine etc.hosts
    → has_prefix (find_upstream (split etc.resolv newline)) (codes "#") ≡ false
    → faults.hosts_unread ≡ false
    → faults.resolv_unread ≡ false
    → faults.hosts_unappended ≡ none
    → later.hosts_unread ≡ false
    → ensure_hosts_and_resolv later (ensure_hosts_and_resolv faults etc).1 ≡ (
      upstream (find_upstream (split etc.resolv newline)),
      (ensure_hosts_and_resolv faults etc).1,
    )
ensure_hosts_and_resolv-appended faults later etc absent ends plain read1 read2 appended readable =
    let address = find_upstream (split etc.resolv newline) in
    find_domain-again later (ensure_hosts_and_resolv faults etc).1 address readable (
      rw (appended-hosts faults etc absent read1 read2 appended) (
        appended-find_domain etc.hosts address absent ends
          (find_upstream-IsField (split etc.resolv newline)) plain))
