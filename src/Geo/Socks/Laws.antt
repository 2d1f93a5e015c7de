-- ===== src/Geo/Socks/Laws.antt =====
-- What a SOCKS5 proxy reads in the request, and what of its reply is read.
use dockerset.Base.{
  ℕ, ◌+◌, ◌*◌, ◌/◌, ◌%◌, ◌^◌, ◌<◌, ◌≡◌, refl, ap, sym, ◌∙◌, inl, inr, ◌⊎◌, false, ◌&&◌, [], ◌∷◌,
  ◌++◌, Option, none, some, arith, ltb, lt→ltb, ◌==◌, if◌then◌else◌, Bytes, length, length-append,
  take, drop, take-append, drop-append, append_assoc, ok, index,
}
use dockerset.Geo.Socks.{
  DialError, greeting, connect_request, address_length, dial_socks5, read_full, address_unread,
  reply_unread,
}

abbrev port_of : Bytes → Option ℕ
port_of (hi ∷ lo ∷ []) = some (hi * 256 + lo)
port_of _ = none

abbrev with_port : Bytes → Option ℕ → Option (Bytes × ℕ)
with_port host none = none
with_port host (some p) = some (host, p)

-- RFC 1928, section 4: the host and port of a CONNECT request with a domain name.
abbrev pub requested : Bytes → Option (Bytes × ℕ)
requested (v ∷ cmd ∷ rsv ∷ kind ∷ len ∷ rest) =
    if v == 5 && cmd == 1 && rsv == 0 && kind == 3
    then with_port (take len rest) (port_of (drop len rest))
    else none
requested _ = none

-- A host of at most 255 bytes and a port of 16 bits are read back from the request.
pub requested-connect_request :
    (host : Bytes) (port : ℕ)
    → length host < 256
    → port < 65536
    → requested (connect_request host port) ≡ some (host, port)
unfolding connect_request
requested-connect_request host port short small =
    let tail : Bytes = port % 2 ^ 16 / 256 ∷ port % 256 ∷ [] in
    let len : length host % 256 ≡ length host = omega arith in
    let front : take (length host % 256) (host ++ tail) ≡ host =
      take-append host tail (length host % 256) len in
    let back : drop (length host % 256) (host ++ tail) ≡ tail =
      drop-append host tail (length host % 256) len in
    let number : port % 2 ^ 16 / 256 * 256 + port % 256 ≡ port = omega arith in
    rw (front, back) (rw number refl)

-- The replies that name an address: of 4 bytes, of 16 bytes, or a domain behind its length
abbrev pub address_part : ℕ → Bytes → Bytes
address_part kind addr = if kind == 3 then length addr ∷ addr else addr

abbrev pub FitsKind : ℕ → Bytes → Type 0
FitsKind kind addr =
    ((kind ≡ 1) × (length addr ≡ 4))
    ⊎ ((kind ≡ 4) × (length addr ≡ 16))
    ⊎ ((kind ≡ 3) × (0 < length addr))

address_length-part :
    (kind : ℕ) (addr later : Bytes)
    → FitsKind kind addr
    → (address_length kind (address_part kind addr ++ later) ≡ ok (length addr, addr ++ later))
      × (0 < length addr)
unfolding address_length index
address_length-part kind addr later fits = elim fits [
  | inl (k, size) ↦ (rw k (ground arith), omega arith)
  | inr rest ↦ elim rest [
    | inl (k, size) ↦ (rw k (ground arith), omega arith)
    | inr (k, size) ↦ (rw k (ground arith), size)
  ]
]

read_full-append :
    (xs ys : Bytes) (n : ℕ) (e : DialError) → n ≡ length xs → read_full n (xs ++ ys) e ≡ ok (xs, ys)
read_full-append xs ys n e h =
    let enough : ltb (length (xs ++ ys)) n ≡ false = ground (arith, length-append xs ys) in
    rw (enough, take-append xs ys n h, drop-append xs ys n h)

-- Whatever method and status the proxy replies with, refusals among them, the dial succeeds: it
-- writes the greeting and the request, and leaves exactly the bytes behind the bound address and port.
pub dial_socks5-any_status :
    (method_version method version status reserved kind p q : ℕ) (addr later host : Bytes)
    (port : ℕ)
    → FitsKind kind addr
    → dial_socks5
        (some (
          method_version
          ∷ method
          ∷ version
          ∷ status
          ∷ reserved
          ∷ kind
          ∷ (address_part kind addr ++ (p ∷ q ∷ later))))
        host
        port
      ≡ ok (record { written = greeting ++ connect_request host port; unread = later })
unfolding dial_socks5
dial_socks5-any_status mv m v s r kind p q addr later host port fits =
    let tail = address_part kind addr ++ (p ∷ q ∷ later) in
    let (sized, some_addr) = address_length-part kind addr (p ∷ q ∷ later) fits in
    let body : read_full (length addr + 2) (addr ++ (p ∷ q ∷ later)) address_unread
        ≡ ok (addr ++ (p ∷ q ∷ []), later) =
      ap (λ (t : Bytes). read_full (length addr + 2) t address_unread)
        (sym (append_assoc addr (p ∷ q ∷ []) later))
      ∙ read_full-append (addr ++ (p ∷ q ∷ [])) later (length addr + 2) address_unread
          (omega (arith, length-append addr (p ∷ q ∷ []))) in
    rw (read_full-append (mv ∷ m ∷ []) (v ∷ s ∷ r ∷ kind ∷ tail) 2 reply_unread refl) (
      rw (read_full-append (v ∷ s ∷ r ∷ kind ∷ []) tail 4 reply_unread refl)
        (rw sized (rw (lt→ltb 0 (length addr) some_addr) (rw body refl))))
