-- ===== src/Mdns/Server/Ignored.antt =====
-- What the loop does not answer: messages that call themselves a response.
use dockerset.Base.{
  ℕ, ◌*◌, ◌+◌, ◌≤◌, ◌<◌, ◌≡◌, refl, ◌⊎◌, inl, inr, false, Bool, [], ◌∷◌, arith, ltb, ◌==◌, ◌/◌, ◌%◌,
  List, suc, zero, if◌then◌else◌, Bool-cases, Bytes, length, take, Outcome, ok, err, uint16,
  uint16_lt, index,
}
use dockerset.Mdns.Name.{PacketError, packet_too_short}
use dockerset.Mdns.Query.{Header, no_intent, read_header, parse_intent}
use dockerset.Mdns.Response.{max_packet_size}
use dockerset.Mdns.Iface.{Iface}
use dockerset.Mdns.Server.{Send, datagram, fqdn_of, answer_intent, serve_event}

flagged : (hi lo : ℕ) → 128 ≤ hi → hi < 256 → lo < 256 → ((hi * 256 + lo) / 0x8000 % 2 == 0) ≡ false
flagged hi lo high small low = ground arith

take-cons_4 :
    (n a b c d : ℕ) (rest : Bytes)
    → 4 ≤ n
    → (more : Bytes) × (take n (a ∷ b ∷ c ∷ d ∷ rest) ≡ a ∷ b ∷ c ∷ d ∷ more)
take-cons_4 (suc (suc (suc (suc n)))) a b c d rest h = (take n rest, refl)
take-cons_4 (suc (suc (suc zero))) a b c d rest h = absurd (omega arith)
take-cons_4 (suc (suc zero)) a b c d rest h = absurd (omega arith)
take-cons_4 (suc zero) a b c d rest h = absurd (omega arith)
take-cons_4 zero a b c d rest h = absurd (omega arith)

parse_intent-ignored :
    (a b hi lo : ℕ) (rest fqdn : Bytes)
    → 128 ≤ hi
    → hi < 256
    → lo < 256
    → ((hdr : Header) × (parse_intent (a ∷ b ∷ hi ∷ lo ∷ rest) fqdn ≡ ok (hdr, no_intent)))
      ⊎ (parse_intent (a ∷ b ∷ hi ∷ lo ∷ rest) fqdn ≡ err packet_too_short)
unfolding parse_intent read_header uint16 index
parse_intent-ignored a b hi lo rest fqdn high small low =
    let packet : Bytes = a ∷ b ∷ hi ∷ lo ∷ rest in
    elim (Bool-cases (ltb (length packet) 12)) [
      | inl e ↦ inr (rw e refl)
      | inr e ↦
          let (c, ec) = uint16_lt {E = PacketError} packet 4 (ground arith) in
          let (d, ed) = uint16_lt {E = PacketError} packet 6 (ground arith) in
          let (f, ef) = uint16_lt {E = PacketError} packet 8 (ground arith) in
          let (g, eg) = uint16_lt {E = PacketError} packet 10 (ground arith) in
          let hdr : Header = record {
            id = a * 256 + b;
            flags = hi * 256 + lo;
            qd_count = c;
            an_count = d;
            ns_count = f;
            ar_count = g;
          } in
          inl (hdr, rw (e, ec, ed, ef, eg) (rw (flagged hi lo high small low) refl))
    ]

answered_at-ignored :
    (iface : Iface) (hostname src packet more : Bytes) (ipv6 : Bool) (a b hi lo : ℕ)
    → packet ≡ a ∷ b ∷ hi ∷ lo ∷ more
    → 128 ≤ hi
    → hi < 256
    → lo < 256
    → answer_intent iface hostname ipv6 src (parse_intent packet (fqdn_of hostname)) ≡ ok []
unfolding answer_intent
answered_at-ignored iface hostname src packet more ipv6 a b hi lo shape high small low =
    elim (parse_intent-ignored a b hi lo more (fqdn_of hostname) high small low) [
      | inl (hdr, e) ↦ rw (shape, e) refl
      | inr e ↦ rw (shape, e) refl
    ]

if_ok :
    (r : Outcome PacketError (List Send)) (x y : Bool)
    → r ≡ ok []
    → (if x then ok [] else if y then ok [] else r) ≡ ok []
if_ok r x y h = ground arith

-- A datagram whose header has the flag of a response, the first bit of its third byte, is not
-- answered, whatever questions it has, for the host too, and however it goes on.
pub serve_event-ignored :
    (iface : Iface) (hostname src : Bytes) (ipv6 : Bool) (a b hi lo : ℕ) (rest : Bytes)
    → 128 ≤ hi
    → hi < 256
    → lo < 256
    → serve_event iface hostname ipv6 (datagram (a ∷ b ∷ hi ∷ lo ∷ rest) src) ≡ ok []
unfolding serve_event
serve_event-ignored iface hostname src ipv6 a b hi lo rest high small low =
    let (more, shape) = take-cons_4 max_packet_size a b hi lo rest (omega arith) in
    if_ok _ _ _ (answered_at-ignored iface hostname src _ more ipv6 a b hi lo shape high small low)
