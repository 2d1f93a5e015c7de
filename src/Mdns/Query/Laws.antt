-- ===== src/Mdns/Query/Laws.antt =====
-- Reading a query: it ends without a fault, and a query for the host's name has its intent.
use dockerset.Base.{
  ℕ, zero, suc, ◌+◌, ◌/◌, ◌%◌, ◌≡◌, refl, ap, sym, ◌∙◌, false, ◌||◌, inl, inr, List, [], ◌∷◌, ◌++◌,
  arith, ltb, ◌==◌, ===_iff, Bool-cases, Bytes, length, length-append, append_assoc, Outcome, ok,
  err, panic, stuck, Returns, if◌then◌else◌, index, uint16, uint16_lt, index-append, ◌>>=◌,
}
use dockerset.Go.Text.{to_lower}
use dockerset.Mdns.Name.{PacketError, encode_name, parse_name}
use dockerset.Mdns.Name.Termination.{NameBounded, parse_name-NameBounded}
use dockerset.Mdns.Name.RoundTrip.{parse_name-encode_name}
use dockerset.Mdns.Query.{
  Header, Question, Intent, read_header, question_at, questions_from, parse_questions, intent_of,
  no_intent, parse_intent, is_response,
}

read_header-Returns : (packet : Bytes) → Returns (read_header packet)
unfolding read_header
read_header-Returns packet = elim (Bool-cases (ltb (length packet) 12)) [
  | inl e ↦ rw e tt
  | inr e ↦
      let (a, ea) = uint16_lt {E = PacketError} packet 0 (ground arith) in
      let (b, eb) = uint16_lt {E = PacketError} packet 2 (ground arith) in
      let (c, ec) = uint16_lt {E = PacketError} packet 4 (ground arith) in
      let (d, ed) = uint16_lt {E = PacketError} packet 6 (ground arith) in
      let (f, ef) = uint16_lt {E = PacketError} packet 8 (ground arith) in
      let (g, eg) = uint16_lt {E = PacketError} packet 10 (ground arith) in
      rw (e, ea, eb, ec, ed, ef, eg) tt
]

question_at-Returns :
    (packet name : Bytes) (off : ℕ) (next : ℕ → Question → Outcome PacketError (List Question))
    → ((o : ℕ) (q : Question) → Returns (next o q))
    → Returns (question_at packet name off next)
unfolding question_at
question_at-Returns packet name off next rest = elim (Bool-cases (ltb (length packet) (off + 4))) [
  | inl e ↦ rw e tt
  | inr e ↦
      let (t, et) = uint16_lt {E = PacketError} packet off (ground arith) in
      let (c, ec) = uint16_lt {E = PacketError} packet (off + 2) (ground arith) in
      rw (e, et, ec) (rest (off + 4) (record { name = name; q_type = t; q_class = c }))
]

after_name :
    (packet : Bytes) (off : ℕ) (r : Outcome PacketError (Bytes × ℕ))
    (next : Bytes → ℕ → Outcome PacketError (List Question))
    → NameBounded packet off r
    → ((name : Bytes) (o : ℕ) → Returns (next name o))
    → Returns (r >>= λ p. next p.0 p.1)
after_name packet off (ok (name, o)) next h rest = rest name o
after_name packet off (err e) next h rest = tt
after_name packet off panic next h rest = h
after_name packet off stuck next h rest = h

questions_from-Returns :
    (left : ℕ) (packet : Bytes) (off : ℕ) (questions : List Question)
    → Returns (questions_from left packet off questions)
unfolding questions_from
questions_from-Returns zero packet off questions = tt
questions_from-Returns (suc left) packet off questions =
    after_name packet off (parse_name packet off)
      (λ name next.
        question_at packet name next (λ o q. questions_from left packet o (questions ++ (q ∷ []))))
      (parse_name-NameBounded packet off)
      (λ name next.
        question_at-Returns packet name next _
          (λ o q. questions_from-Returns left packet o (questions ++ (q ∷ []))))

-- `parseIntent` returns for every packet: it reads no byte out of range and its loops end.
pub parse_intent-Returns : (packet fqdn : Bytes) → Returns (parse_intent packet fqdn)
unfolding parse_intent parse_questions
parse_intent-Returns packet fqdn = read (read_header packet) (read_header-Returns packet)
  where
    questions :
        (hdr : Header) (r : Outcome PacketError (List Question))
        → Returns r
        → Returns (◌>>=◌ {B = Header × Intent} r (λ qs. ok (hdr, intent_of fqdn no_intent qs)))
    questions hdr (ok qs) h = tt
    questions hdr (err e) h = tt
    questions hdr panic h = h
    questions hdr stuck h = h

    read :
        (r : Outcome PacketError Header)
        → Returns r
        → Returns (
            ◌>>=◌ {B = Header × Intent} r (λ hdr.
              if is_response hdr
              then ok (hdr, no_intent)
              else questions_from hdr.qd_count packet 12 [] >>= λ qs.
                  ok (hdr, intent_of fqdn no_intent qs)))
    read (ok hdr) h = elim (Bool-cases (is_response hdr)) [
      | inl e ↦ rw e tt
      | inr e ↦ rw e (questions hdr _ (questions_from-Returns hdr.qd_count packet 12 []))
    ]
    read (err e) h = tt
    read panic h = h
    read stuck h = h

-- A query with one question, as a resolver sends it.
abbrev pub query_bytes : ℕ → ℕ → ℕ → Bytes → Bytes
query_bytes id q_type q_class enc_name =
    (id / 256 ∷ id % 256 ∷ 0 ∷ 0 ∷ 0 ∷ 1 ∷ 0 ∷ 0 ∷ 0 ∷ 0 ∷ 0 ∷ 0 ∷ [])
    ++ (enc_name ++ (q_type / 256 ∷ q_type % 256 ∷ q_class / 256 ∷ q_class % 256 ∷ []))

abbrev pub query_header : ℕ → Header
query_header id = record {
  id = id;
  flags = 0;
  qd_count = 1;
  an_count = 0;
  ns_count = 0;
  ar_count = 0;
}

-- The intent of one question of this type for the name.
abbrev pub intent_for : ℕ → Intent
intent_for q_type = record {
  want_a = q_type == 1 || q_type == 255;
  want_aaaa = q_type == 28 || q_type == 255;
}

header_of_query :
    (id : ℕ) (tail : Bytes)
    → read_header ((id / 256 ∷ id % 256 ∷ 0 ∷ 0 ∷ 0 ∷ 1 ∷ 0 ∷ 0 ∷ 0 ∷ 0 ∷ 0 ∷ 0 ∷ []) ++ tail)
      ≡ ok (query_header id)
unfolding read_header index
header_of_query id tail = ground arith

question_of_query :
    (q_type q_class off : ℕ) (packet pre name : Bytes)
    (next : ℕ → Question → Outcome PacketError (List Question))
    → packet ≡ pre ++ (q_type / 256 ∷ q_type % 256 ∷ q_class / 256 ∷ q_class % 256 ∷ [])
    → off ≡ length pre
    → question_at packet name off next
      ≡ next (off + 4) (record { name = name; q_type = q_type; q_class = q_class })
unfolding question_at uint16 index
question_of_query q_type q_class off packet pre name next e at =
    let tail : Bytes = q_type / 256 ∷ q_type % 256 ∷ q_class / 256 ∷ q_class % 256 ∷ [] in
    let size : length packet ≡ off + 4 = omega (arith, ap length e, length-append pre tail) in
    let b0 : index {E = PacketError} packet off ≡ ok (q_type / 256) =
      rw e (index-append pre tail 0 off (omega arith)) in
    let b1 : index {E = PacketError} packet (off + 1) ≡ ok (q_type % 256) =
      rw e (index-append pre tail 1 (off + 1) (omega arith)) in
    let b2 : index {E = PacketError} packet (off + 2) ≡ ok (q_class / 256) =
      rw e (index-append pre tail 2 (off + 2) (omega arith)) in
    let b3 : index {E = PacketError} packet (off + 2 + 1) ≡ ok (q_class % 256) =
      rw e (index-append pre tail 3 (off + 2 + 1) (omega arith)) in
    let fits : ltb (length packet) (off + 4) ≡ false = ground arith in
    rw (fits, b0, b1, b2, b3) (ground arith)

intent_of-one :
    (fqdn : Bytes) (q_type q_class : ℕ)
    → intent_of fqdn no_intent (record { name = fqdn; q_type = q_type; q_class = q_class } ∷ [])
      ≡ intent_for q_type
unfolding intent_of
intent_of-one fqdn q_type q_class = rw ((===_iff fqdn fqdn).1 refl) (ground arith)

-- A query for a name, in any case, is read with its id, and asks for A and AAAA exactly as its type
-- says (1, 28, or 255 for both).
pub parse_intent-query_bytes :
    (id q_type q_class : ℕ) (name enc fqdn : Bytes)
    → encode_name name ≡ ok enc
    → to_lower name ≡ fqdn
    → parse_intent (query_bytes id q_type q_class enc) fqdn
      ≡ ok (query_header id, intent_for q_type)
unfolding parse_intent parse_questions questions_from
parse_intent-query_bytes id q_type q_class name enc fqdn encoded same =
    let head : Bytes = id / 256 ∷ id % 256 ∷ 0 ∷ 0 ∷ 0 ∷ 1 ∷ 0 ∷ 0 ∷ 0 ∷ 0 ∷ 0 ∷ 0 ∷ [] in
    let tail : Bytes = q_type / 256 ∷ q_type % 256 ∷ q_class / 256 ∷ q_class % 256 ∷ [] in
    let named : parse_name (head ++ (enc ++ tail)) 12 ≡ ok (fqdn, 12 + length enc) =
      parse_name-encode_name name enc head tail encoded ∙ rw same in
    rw (header_of_query id (enc ++ tail)) (
      rw named (
        rw
          (question_of_query q_type q_class (12 + length enc) (head ++ (enc ++ tail)) (head ++ enc)
            fqdn _ (sym (append_assoc head enc tail)) (omega (arith, length-append head enc)))
          (ap (λ i. ok (query_header id, i)) (intent_of-one fqdn q_type q_class))))
