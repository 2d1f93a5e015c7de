-- ===== src/Geo/Resolv/Server.antt =====
-- Which line of `/etc/resolv.conf` gives the upstream.
use dockerset.Base.{
  ◌≡◌, ◌≢◌, refl, ◌∙◌, inl, inr, Bool, true, false, not, ◌||◌, ◌&&◌, List, [], ◌∷◌, Option, none,
  some, arith, ◌===◌, ===_iff, Bytes, codes, Bool-cases, Option-cases,
}
use dockerset.Go.Text.{trim_space, has_prefix}
use dockerset.Go.Text.Search.{Begins, has_prefix_iff}
use dockerset.Geo.Resolv.{
  fields, passes_over, is_server_line, server_at, line_server, find_upstream,
}

-- The line begins with `nameserver`, and its second word is an address other than 127.0.0.1 and
-- 0.0.0.0.
pub IsServer : Bytes → Bytes → Type 0
IsServer l address =
    Begins (trim_space l) (codes "nameserver")
    × ((word : Bytes) × (words : List Bytes) × (fields (trim_space l) ≡ word ∷ address ∷ words))
    × (address ≢ codes "127.0.0.1")
    × (address ≢ codes "0.0.0.0")

-- The server of the first line that has one, or 8.8.8.8
pub data IsUpstream : List Bytes → Bytes → Type 0 where
  no_server : IsUpstream [] (codes "8.8.8.8")
  server_here :
      {l address : Bytes} {ls : List Bytes} → IsServer l address → IsUpstream (l ∷ ls) address
  server_later :
      {l address : Bytes} {ls : List Bytes}
      → ((a : Bytes) → ¬ IsServer l a)
      → IsUpstream ls address
      → IsUpstream (l ∷ ls) address

server_at-some :
    (ws : List Bytes) (address : Bytes)
    → server_at ws ≡ some address
    → ((word : Bytes) × (words : List Bytes) × (ws ≡ word ∷ address ∷ words))
      × (address ≢ codes "127.0.0.1")
      × (address ≢ codes "0.0.0.0")
server_at-some [] address h = absurd cc
server_at-some (word ∷ []) address h = absurd cc
server_at-some (word ∷ ip ∷ words) address h =
    elim (Bool-cases (ip === codes "127.0.0.1" || ip === codes "0.0.0.0")) [
      | inl local ↦ let no : ◌≡◌ {A = Option Bytes} none (some address) = rw local at h in absurd cc
      | inr far ↦
          let found : ◌≡◌ {A = Option Bytes} (some ip) (some address) = rw far at h in
          let same : ip ≡ address = cc in
          (
            (word, words, rw same refl),
            (λ e. ground (arith, far, (===_iff ip (codes "127.0.0.1")).1 (same ∙ e))),
            (λ e. ground (arith, far, (===_iff ip (codes "0.0.0.0")).1 (same ∙ e))),
          )
    ]

server_at-none :
    (word address : Bytes) (words : List Bytes)
    → address ≢ codes "127.0.0.1"
    → address ≢ codes "0.0.0.0"
    → server_at (word ∷ address ∷ words) ≢ none
server_at-none word address words far given e = elim (Bool-cases (address === codes "127.0.0.1")) [
  | inl local ↦ far ((===_iff address (codes "127.0.0.1")).0 local)
  | inr other ↦ elim (Bool-cases (address === codes "0.0.0.0")) [
    | inl zeros ↦ given ((===_iff address (codes "0.0.0.0")).0 zeros)
    | inr neither ↦
        let no : ◌≡◌ {A = Option Bytes} (some address) none = rw (other, neither) at e in cc
  ]
]

used : (t : Bytes) → Begins t (codes "nameserver") → passes_over t ≡ false
unfolding passes_over has_prefix
used t (rest, e) = rw e (ground arith)

and_second : (a b : Bool) → (a && b) ≡ true → b ≡ true
and_second a b h = ground arith

line_server-some : (l address : Bytes) → line_server l ≡ some address → IsServer l address
unfolding line_server is_server_line IsServer
line_server-some l address h =
    elim (Bool-cases (not (passes_over (trim_space l)) && is_server_line l)) [
      | inr passed ↦
          let no : ◌≡◌ {A = Option Bytes} none (some address) = rw (passed, line_server) at h in
          absurd cc
      | inl server ↦
          let found : server_at (fields (trim_space l)) ≡ some address =
            rw (server, line_server) at h in
          let (words, far, given) = server_at-some (fields (trim_space l)) address found in
          (
            (has_prefix_iff (trim_space l) (codes "nameserver")).0 (and_second _ _ server),
            words,
            far,
            given,
          )
    ]

line_server-none : (l address : Bytes) → line_server l ≡ none → ¬ IsServer l address
unfolding line_server is_server_line IsServer
line_server-none l address h (begins, (word, words, e), far, given) =
    let server : is_server_line l ≡ true =
      (has_prefix_iff (trim_space l) (codes "nameserver")).1 begins in
    server_at-none word address words far given
      (rw (used (trim_space l) begins, server, e, line_server) at h)

pub find_upstream-IsUpstream : (ls : List Bytes) → IsUpstream ls (find_upstream ls)
unfolding find_upstream
find_upstream-IsUpstream [] = no_server
find_upstream-IsUpstream (l ∷ ls) = elim (Option-cases (line_server l)) [
  | inl absent ↦
      rw (absent, find_upstream)
        (server_later (λ a. line_server-none l a absent) (find_upstream-IsUpstream ls))
  | inr (address, e) ↦ rw (e, find_upstream) (server_here (line_server-some l address e))
]
