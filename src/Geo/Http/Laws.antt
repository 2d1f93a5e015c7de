-- ===== src/Geo/Http/Laws.antt =====
-- Nothing that a client sends is lost on the way to the upstream.
use mathlib.Core.Path.{subst}
use dockerset.Base.{
  ℕ, zero, suc, ◌≡◌, refl, sym, ap, ◌∙◌, ◌⊎◌, inl, inr, Bool, true, false, List, [], ◌∷◌, ◌++◌,
  append_assoc, Option, none, some, ◌==◌, ◌===◌, if◌then◌else◌, Bytes, length, take, drop, Outcome,
  ok, err, panic, stuck, bind-eq-ok, Bool-cases, arith, drop-append, ok-injective, ltb, index,
  uint16,
}
use dockerset.Geo.Tls.{
  TlsError, header_unread, body_unread, sni_not_found, not_handshake, read_full, read_client_hello,
  parse_sni,
}
use dockerset.Geo.Http.{
  concat, bytes_of, line_byte, stream_of, next_host, Header, no_host, upstream_undialled,
  read_lines, hosted, with_host, header_of, pass_on, read_http_header, parse_http_host, Forward,
  forward, handle_http_conn, handle_tls_conn,
}

take-drop : (n : ℕ) (xs : Bytes) → take n xs ++ drop n xs ≡ xs
take-drop zero xs = refl
take-drop (suc n) [] = refl
take-drop (suc n) (x ∷ xs) = ap (◌∷◌ x) (take-drop n xs)

line_byte-bytes_of :
    (b : ℕ) (tail : Bytes) (ls : List Bytes)
    → bytes_of (line_byte b tail ls) ≡ b ∷ (concat ls ++ tail)
line_byte-bytes_of b tail [] = refl
line_byte-bytes_of b tail (l ∷ ls) = refl

pub stream_of-bytes_of : (bs : Bytes) → bytes_of (stream_of bs) ≡ bs
unfolding stream_of
stream_of-bytes_of [] = refl
stream_of-bytes_of (b ∷ bs) = elim (Bool-cases (b == 10)) [
  | inl end ↦ rw end (ap (◌∷◌ b) (stream_of-bytes_of bs))
  | inr other ↦ rw other (
      line_byte-bytes_of b (stream_of bs).tail (stream_of bs).lines
      ∙ ap (◌∷◌ b) (stream_of-bytes_of bs))
]

read_lines-bytes :
    (buf host : Bytes) (ls : List Bytes) (tail : Bytes) (h : Header)
    → read_lines buf host ls tail ≡ some h
    → h.bytes ++ bytes_of h.left ≡ buf ++ (concat ls ++ tail)
unfolding read_lines
read_lines-bytes buf host [] tail h e = absurd (ground (arith, e))
read_lines-bytes buf host (l ∷ ls) tail h e = elim (Bool-cases (l === (13 ∷ 10 ∷ []))) [
  | inl blank ↦
      let read : Header = record {
        bytes = buf ++ l;
        host = next_host host l;
        left = record { lines = ls; tail = tail };
      } in
      let same : some read ≡ some h = rw (blank, read_lines) at e in
      let here : read ≡ h = cc in
      subst (λ (x : Header). x.bytes ++ bytes_of x.left ≡ buf ++ ((l ++ concat ls) ++ tail)) here
        (append_assoc buf l (concat ls ++ tail)
          ∙ ap (λ (x : Bytes). buf ++ x) (sym (append_assoc l (concat ls) tail)))
  | inr more ↦
      let later : read_lines (buf ++ l) (next_host host l) ls tail ≡ some h =
        rw (more, read_lines) at e in
      read_lines-bytes (buf ++ l) (next_host host l) ls tail h later
      ∙ append_assoc buf l (concat ls ++ tail)
      ∙ ap (λ (x : Bytes). buf ++ x) (sym (append_assoc l (concat ls) tail))
]

-- What the handler writes and what is then copied are together what the client sent.
forward-sent :
    (host : Bytes) (port : ℕ) (first : Bytes) (ahead : ℕ) (left stream : Bytes)
    → first ++ left ≡ stream
    → (forward host port first ahead left).sent ++ (forward host port first ahead left).piped
      ≡ stream
forward-sent host port first ahead left stream whole =
    append_assoc first (take ahead left) (drop ahead left)
    ∙ ap (λ (l : Bytes). first ++ l) (take-drop ahead left)
    ∙ whole

-- The header has the bytes that were read, and the rest of the stream.
IsRead : Header → Header → Type 0
IsRead h k = (k.bytes ≡ h.bytes) × (k.left ≡ h.left)

hosted-IsRead : (h : Header) (o : Outcome Unit Bytes) (k : Header) → hosted h o ≡ ok k → IsRead h k
unfolding IsRead
hosted-IsRead h (ok host) k e =
    let same : record h { host = host } ≡ k = ok-injective e in
    (sym (ap (λ (x : Header). x.bytes) same), sym (ap (λ (x : Header). x.left) same))
hosted-IsRead h (err x) k e = absurd cc
hosted-IsRead h panic k e = absurd cc
hosted-IsRead h stuck k e = absurd cc

with_host-IsRead :
    (parse_url : Bytes → Option Bytes) (h k : Header) → with_host parse_url h ≡ ok k → IsRead h k
unfolding IsRead
with_host-IsRead parse_url h k e = elim (Bool-cases (length h.host == 0)) [
  | inl absent ↦ hosted-IsRead h (parse_http_host parse_url h.bytes) k (rw absent at e)
  | inr given ↦
      let same : h ≡ k = ok-injective (rw given at e) in
      (sym (ap (λ (x : Header). x.bytes) same), sym (ap (λ (x : Header). x.left) same))
]

header_of-bytes :
    (parse_url : Bytes → Option Bytes) (ls : List Bytes) (tail : Bytes) (o : Option Header)
    (k : Header)
    → read_lines [] [] ls tail ≡ o
    → header_of parse_url o ≡ ok k
    → k.bytes ++ bytes_of k.left ≡ concat ls ++ tail
unfolding IsRead
header_of-bytes parse_url ls tail none k read e = absurd cc
header_of-bytes parse_url ls tail (some h) k read e =
    let (bytes, left) = with_host-IsRead parse_url h k e in
    rw (bytes, left) (read_lines-bytes [] [] ls tail h read)

-- A connection to a host that is not empty and that the upstream reaches, on which all goes that the
-- client sent, in order
abbrev pub IsPassedOn : (Bytes → ℕ → Bool) → Bytes → Forward → Type 0
IsPassedOn dials stream f =
    (f.sent ++ f.piped ≡ stream) × (dials f.host f.port ≡ true) × (length f.host == 0 ≡ false)

forward-IsPassedOn :
    (dials : Bytes → ℕ → Bool) (host : Bytes) (port : ℕ) (first : Bytes) (ahead : ℕ)
    (left stream : Bytes)
    → first ++ left ≡ stream
    → dials host port ≡ true
    → length host == 0 ≡ false
    → IsPassedOn dials stream (forward host port first ahead left)
forward-IsPassedOn dials host port first ahead left stream whole reached given =
    (forward-sent host port first ahead left stream whole, reached, given)

pass_on-IsPassedOn :
    (dials : Bytes → ℕ → Bool) (ahead : ℕ) (h : Header) (stream : Bytes) (f : Forward)
    → h.bytes ++ bytes_of h.left ≡ stream
    → pass_on dials ahead h ≡ ok f
    → IsPassedOn dials stream f × (f.port ≡ 80)
pass_on-IsPassedOn dials ahead h stream f whole e = elim (Bool-cases (length h.host == 0)) [
  | inl absent ↦ (let wrong : err no_host ≡ ok f = rw absent at e in absurd cc)
  | inr given ↦ elim (Bool-cases (dials h.host 80)) [
    | inr unreached ↦
        (let wrong : err upstream_undialled ≡ ok f = rw (given, unreached) at e in absurd cc)
    | inl reached ↦
        let made : Forward = forward h.host 80 h.bytes ahead (bytes_of h.left) in
        let same : made ≡ f = ok-injective (rw (given, reached) at e) in
        subst (λ (x : Forward). IsPassedOn dials stream x × (x.port ≡ 80)) same
          (
            forward-IsPassedOn dials h.host 80 h.bytes ahead (bytes_of h.left) stream whole reached
                given,
            refl,
          )
  ]
]

handle_http_conn-IsPassedOn :
    (parse_url : Bytes → Option Bytes) (dials : Bytes → ℕ → Bool) (ahead : ℕ) (stream : Bytes)
    (f : Forward)
    → handle_http_conn parse_url dials ahead stream ≡ ok f
    → IsPassedOn dials stream f × (f.port ≡ 80)
unfolding handle_http_conn read_http_header
handle_http_conn-IsPassedOn parse_url dials ahead stream f e =
    let s = stream_of stream in
    let (h, read, passed) =
      bind-eq-ok (read_http_header parse_url s) (λ (h : Header). pass_on dials ahead h) e in
    pass_on-IsPassedOn dials ahead h stream f
      (header_of-bytes parse_url s.lines s.tail (read_lines [] [] s.lines s.tail) h refl read
        ∙ stream_of-bytes_of stream)
      passed

read_full-eq-ok :
    (n : ℕ) (stream : Bytes) (e : TlsError) (got left : Bytes)
    → read_full n stream e ≡ ok (got, left)
    → got ++ left ≡ stream
read_full-eq-ok n stream e got left h = elim (Bool-cases (ltb (length stream) n)) [
  | inl short ↦
      (let wrong : ◌≡◌ {A = Outcome TlsError (Bytes × Bytes)} (err e) (ok (got, left)) =
          rw short at h in
        absurd cc)
  | inr long ↦
      let same : (take n stream, drop n stream) ≡ (got, left) = ok-injective (rw long at h) in
      ap (λ (p : Bytes × Bytes). p.0 ++ p.1) (sym same) ∙ take-drop n stream
]

-- The end of `read_client_hello`
abbrev with_name : Bytes → Bytes → Outcome TlsError (Bytes × Bytes)
with_name found whole = if length found == 0 then err sni_not_found else ok (found, whole)

named :
    (found whole name hello : Bytes)
    → with_name found whole ≡ ok (name, hello)
    → (whole ≡ hello) × (length name == 0 ≡ false)
named found whole name hello h = elim (Bool-cases (length found == 0)) [
  | inl absent ↦
      (let wrong : ◌≡◌ {A = Outcome TlsError (Bytes × Bytes)} (err sni_not_found)
            (ok (name, hello)) =
          rw absent at h in
        absurd cc)
  | inr given ↦
      let same : (found, whole) ≡ (name, hello) = ok-injective (rw given at h) in
      let name_same = ap (λ (p : Bytes × Bytes). p.0) same in
      (
        ap (λ (p : Bytes × Bytes). p.1) same,
        subst (λ (n : Bytes). length n == 0 ≡ false) name_same given,
      )
]

start-drop :
    (first later stream : Bytes)
    → first ++ later ≡ stream
    → first ++ drop (length first) stream ≡ stream
start-drop first later stream whole =
    subst (λ (s : Bytes). first ++ drop (length first) s ≡ s) whole
      (ap (λ (l : Bytes). first ++ l) (drop-append first later (length first) refl))

-- `read_client_hello` returns a name that is not empty and the start of the stream.
read_client_hello-start :
    (stream name hello : Bytes)
    → read_client_hello stream ≡ ok (name, hello)
    → (hello ++ drop (length hello) stream ≡ stream) × (length name == 0 ≡ false)
unfolding read_client_hello
read_client_hello-start stream name hello e =
    let ((hdr, rest), first, e1) = bind-eq-ok (read_full 5 stream header_unread) _ e in
    let (kind, at_zero, e2) = bind-eq-ok (index hdr 0) _ e1 in
    elim (Bool-cases (kind == 0x16)) [
      | inr other ↦
          (let wrong : ◌≡◌ {A = Outcome TlsError (Bytes × Bytes)} (err not_handshake)
                (ok (name, hello)) =
              rw other at e2 in
            absurd cc)
      | inl shake ↦
          let (hl, len, e3) = bind-eq-ok (uint16 hdr 3) _ (rw shake at e2) in
          let ((body, later), second, e4) = bind-eq-ok (read_full hl rest body_unread) _ e3 in
          let (found, parsed, e5) = bind-eq-ok (parse_sni (hdr ++ body)) _ e4 in
          let (same, given) = named found (hdr ++ body) name hello e5 in
          let whole : (hdr ++ body) ++ later ≡ stream =
            append_assoc hdr body later
            ∙ ap (λ (l : Bytes). hdr ++ l) (read_full-eq-ok hl rest body_unread body later second)
            ∙ read_full-eq-ok 5 stream header_unread hdr rest first in
          (
            subst (λ (h : Bytes). h ++ drop (length h) stream ≡ stream) same
                (start-drop (hdr ++ body) later stream whole),
            given,
          )
    ]

handle_tls_conn-IsPassedOn :
    (dials : Bytes → ℕ → Bool) (ahead : ℕ) (stream : Bytes) (f : Forward)
    → handle_tls_conn dials ahead stream ≡ ok (some f)
    → IsPassedOn dials stream f × (f.port ≡ 443)
unfolding handle_tls_conn
handle_tls_conn-IsPassedOn dials ahead stream f e =
    let ((name, hello), read, e1) = bind-eq-ok (read_client_hello stream) _ e in
    let (whole, given) = read_client_hello-start stream name hello read in
    elim (Bool-cases (dials name 443)) [
      | inr unreached ↦
          (let wrong : ◌≡◌ {A = Outcome TlsError (Option Forward)} (ok none) (ok (some f)) =
              rw unreached at e1 in
            absurd cc)
      | inl reached ↦
          let made : Forward = forward name 443 hello ahead (drop (length hello) stream) in
          let both : ◌≡◌ {A = Outcome TlsError (Option Forward)} (ok (some made)) (ok (some f)) =
            rw reached at e1 in
          let same : made ≡ f = cc in
          subst (λ (x : Forward). IsPassedOn dials stream x × (x.port ≡ 443)) same
            (
              forward-IsPassedOn dials name 443 hello ahead (drop (length hello) stream) stream
                  whole reached given,
              refl,
            )
    ]

-- Where `handleHTTPConn` or `handleTLSConn` passes a connection on, it is to a host that is not empty
-- and that the upstream reaches, at port 80 or 443. What the handler writes to the upstream and what
-- is then copied are together the bytes that the client sent, in order, however far the reader has
-- read ahead.
pub handle_conn-IsPassedOn :
    (parse_url : Bytes → Option Bytes) (dials : Bytes → ℕ → Bool) (ahead : ℕ) (stream : Bytes)
    (f : Forward)
    → (handle_http_conn parse_url dials ahead stream ≡ ok f)
      ⊎ (handle_tls_conn dials ahead stream ≡ ok (some f))
    → IsPassedOn dials stream f × ((f.port ≡ 80) ⊎ (f.port ≡ 443))
handle_conn-IsPassedOn parse_url dials ahead stream f (inl http) =
    let (passed, port) = handle_http_conn-IsPassedOn parse_url dials ahead stream f http in
    (passed, inl port)
handle_conn-IsPassedOn parse_url dials ahead stream f (inr tls) =
    let (passed, port) = handle_tls_conn-IsPassedOn dials ahead stream f tls in (passed, inr port)
