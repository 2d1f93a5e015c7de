-- ===== src/Geo/Tunnel/Laws.antt =====
-- What is left to read on the tunnel of an HTTP proxy.
use mathlib.Core.Path.{subst}
use dockerset.Base.{
  ℕ, ◌≡◌, refl, sym, ap, ◌∙◌, inl, inr, List, [], ◌∷◌, ◌++◌, append_assoc, Option, none, some,
  ◌===◌, Bytes, drop, codes, Outcome, ok, err, ok-injective, Bool-cases, arith, ===_iff, ==_iff,
  ◌==◌, ◌≢◌, All, false,
}
use dockerset.Go.Text.{contains}
use dockerset.Go.Text.Search.{Occurs, contains_iff}
use dockerset.Geo.Http.{concat, stream_of, line_byte}
use dockerset.Geo.Http.Laws.{stream_of-bytes_of}
use dockerset.Geo.Socks.{DialError, proxy_refused, Tunnel}
use dockerset.Geo.Tunnel.{
  crlf, connect_text, drain_headers, tunnel_after, after_status, dial_http_proxy,
}

-- One line: it ends in a newline, and has no other.
abbrev pub IsLine : Bytes → Type 0
IsLine l = (front : Bytes) × (l ≡ front ++ (10 ∷ [])) × All (λ c. (c == 10) ≡ false) front

line_byte-IsLine :
    (b : ℕ) (tail : Bytes) (ls : List Bytes)
    → (b == 10) ≡ false
    → All IsLine ls
    → All IsLine (line_byte b tail ls).lines
line_byte-IsLine b tail [] other all = tt
line_byte-IsLine b tail (l ∷ ls) other ((front, ends, clean), all) =
    ((b ∷ front, ap (λ (x : Bytes). b ∷ x) ends, (other, clean)), all)

stream_of-IsLine : (s : Bytes) → All IsLine (stream_of s).lines
unfolding stream_of
stream_of-IsLine [] = tt
stream_of-IsLine (b ∷ s) = elim (Bool-cases (b == 10)) [
  | inl ends ↦
      let q : b ≡ 10 = (==_iff b 10).0 ends in
      rw ends (([], ap (λ (x : ℕ). x ∷ []) q, tt), stream_of-IsLine s)
  | inr other ↦
      rw other
        (line_byte-IsLine b (stream_of s).tail (stream_of s).lines other (stream_of-IsLine s))
]

-- A line of the head that does not end it
abbrev pub IsHeaderLine : Bytes → Type 0
IsHeaderLine l = IsLine l × (l ≢ crlf)

-- The bytes begin with a head: a status line with the text 200, header lines, and the first empty line
-- behind it. The rest is what is left.
abbrev pub IsHead : Bytes → Bytes → Type 0
IsHead stream left =
    (status : Bytes) × (headers : List Bytes) × IsLine status
    × Occurs status (codes "200")
    × All IsHeaderLine headers
    × (stream ≡ status ++ (concat headers ++ (crlf ++ left)))

drain_headers-lines :
    (ls : List Bytes) (tail left : Bytes)
    → All IsLine ls
    → drain_headers ls tail ≡ some left
    → (headers : List Bytes) × All IsHeaderLine headers
      × (concat ls ++ tail ≡ concat headers ++ (crlf ++ left))
unfolding drain_headers
drain_headers-lines [] tail left all e = absurd (ground (arith, e))
drain_headers-lines (l ∷ ls) tail left (line, all) e = elim (Bool-cases (l === crlf)) [
  | inl blank ↦
      let last : l ≡ crlf = (===_iff l crlf).0 blank in
      let found : ◌≡◌ {A = Option Bytes} (some (concat ls ++ tail)) (some left) =
        rw (blank, drain_headers) at e in
      let same : concat ls ++ tail ≡ left = cc in
      (
        [],
        tt,
        append_assoc l (concat ls) tail
            ∙ ap (λ (x : Bytes). l ++ x) same
            ∙ ap (λ (x : Bytes). x ++ left) last,
      )
  | inr more ↦
      let (headers, good, whole) =
        drain_headers-lines ls tail left all (rw (more, drain_headers) at e) in
      let apart : l ≢ crlf = λ q. absurd (ground (arith, more, (===_iff l crlf).1 q)) in
      (
        l ∷ headers,
        ((line, apart), good),
        append_assoc l (concat ls) tail
            ∙ ap (λ (x : Bytes). l ++ x) whole
            ∙ sym (append_assoc l (concat headers) (crlf ++ left)),
      )
]

-- A tunnel on which the request was written, and on which what stands behind the head is left to read,
-- but for what the reader has read ahead
abbrev pub IsTunnel : Bytes → ℕ → Bytes → Tunnel → Type 0
IsTunnel answer ahead target t =
    (left : Bytes) × IsHead answer left
    × (t.written ≡ connect_text target)
    × (t.unread ≡ drop ahead left)

tunnel_after-IsTunnel :
    (ls : List Bytes) (tail target status : Bytes) (ahead : ℕ) (o : Option Bytes) (t : Tunnel)
    → IsLine status
    → Occurs status (codes "200")
    → All IsLine ls
    → drain_headers ls tail ≡ o
    → tunnel_after target ahead o ≡ ok t
    → IsTunnel (status ++ (concat ls ++ tail)) ahead target t
tunnel_after-IsTunnel ls tail target status ahead none t line accepted all drained e = absurd cc
tunnel_after-IsTunnel ls tail target status ahead (some left) t line accepted all drained e =
    let (headers, good, whole) = drain_headers-lines ls tail left all drained in
    let same : record { written = connect_text target; unread = drop ahead left } ≡ t =
      ok-injective e in
    (
      left,
      (status, headers, line, accepted, good, ap (λ (x : Bytes). status ++ x) whole),
      sym (ap (λ (x : Tunnel). x.written) same),
      sym (ap (λ (x : Tunnel). x.unread) same),
    )

after_status-IsTunnel :
    (ls : List Bytes) (tail target : Bytes) (ahead : ℕ) (t : Tunnel)
    → All IsLine ls
    → after_status target ahead ls tail ≡ ok t
    → IsTunnel (concat ls ++ tail) ahead target t
after_status-IsTunnel [] tail target ahead t all e = absurd cc
after_status-IsTunnel (status ∷ ls) tail target ahead t (line, all) e =
    elim (Bool-cases (contains status (codes "200"))) [
      | inr refused ↦
          (let wrong : ◌≡◌ {A = Outcome DialError Tunnel} (err proxy_refused) (ok t) =
              rw refused at e in
            absurd cc)
      | inl accepted ↦ rw (append_assoc status (concat ls) tail) (
          tunnel_after-IsTunnel ls tail target status ahead (drain_headers ls tail) t line
            ((contains_iff status (codes "200")).0 accepted) all refl (rw accepted at e))
    ]

-- Where `dialHTTPProxy` returns a tunnel, it wrote the CONNECT request, and the answer of the proxy
-- begins with a status line that contains 200 and with header lines up to the first that is empty.
-- What stands behind this head is left to read on the tunnel but for the bytes that the reader of
-- the head had read ahead, which are lost.
pub dial_http_proxy-IsTunnel :
    (answer : Bytes) (ahead : ℕ) (target : Bytes) (t : Tunnel)
    → dial_http_proxy (some answer) ahead target ≡ ok t
    → IsTunnel answer ahead target t
unfolding dial_http_proxy
dial_http_proxy-IsTunnel answer ahead target t e =
    let s = stream_of answer in
    subst (λ (x : Bytes). IsTunnel x ahead target t) (stream_of-bytes_of answer)
      (after_status-IsTunnel s.lines s.tail target ahead t (stream_of-IsLine answer) e)
