-- ===== src/Mdns/Response/Layout.antt =====
-- The bytes that `buildResponse` returns, and what a responder reads in them.
use dockerset.Base.{
  ℕ, ◌+◌, ◌*◌, ◌/◌, ◌%◌, ◌≤◌, ◌<◌, ◌≡◌, ◌≢◌, ap, sym, ◌∙◌, false, inl, inr, ◌⊎◌, List, [], ◌∷◌,
  ◌++◌, arith, ◌==◌, Bool-cases, Option-cases, All-append, Bytes, length, length-append, All,
  append_assoc, append-nil, ok, if◌then◌else◌, ok-injective, bind-eq-ok, index,
}
use dockerset.Go.Net.{to4, to16}
use dockerset.Mdns.Name.{encode_name}
use dockerset.Mdns.Query.{Header, no_intent, read_header, parse_intent}
use dockerset.Mdns.Response.{
  answer_of, answers_of, resource_record, append_answers, response_header, build_response,
  max_packet_size,
}
use dockerset.Go.Net.Laws.{length-to4, length-to16, to4_four, to16_sixteen}

abbrev pub records : Bytes → ℕ → List Bytes → Bytes
records enc_name rr_type [] = []
records enc_name rr_type (ip ∷ ips) =
    resource_record enc_name rr_type ip ++ records enc_name rr_type ips

append_answers-inv :
    (enc_name : Bytes) (rr_type : ℕ) (ips : List Bytes) (packet resp : Bytes)
    → length packet ≤ max_packet_size
    → append_answers enc_name rr_type ips packet ≡ ok resp
    → (resp ≡ packet ++ records enc_name rr_type ips) × (length resp ≤ max_packet_size)
unfolding append_answers
append_answers-inv enc_name rr_type [] packet resp fits h = ground (arith, append-nil packet)
append_answers-inv enc_name rr_type (ip ∷ ips) packet resp fits h =
    let record_of = resource_record enc_name rr_type ip in
    ground (
      arith,
      append_answers-inv enc_name rr_type ips (packet ++ record_of) resp,
      append_assoc packet record_of (records enc_name rr_type ips),
    )

-- The other way round: it succeeds wherever the whole packet fits.
append_answers-fits :
    (enc_name : Bytes) (rr_type : ℕ) (ips : List Bytes) (packet : Bytes)
    → length packet + length (records enc_name rr_type ips) ≤ max_packet_size
    → append_answers enc_name rr_type ips packet ≡ ok (packet ++ records enc_name rr_type ips)
unfolding append_answers
append_answers-fits enc_name rr_type [] packet fits = rw append-nil
append_answers-fits enc_name rr_type (ip ∷ ips) packet fits =
    let record_of = resource_record enc_name rr_type ip in
    ground (
      arith,
      append_answers-fits enc_name rr_type ips (packet ++ record_of),
      append_assoc packet record_of (records enc_name rr_type ips),
      length-append packet record_of,
      length-append record_of (records enc_name rr_type ips),
    )

-- Bytes of one address of the type
abbrev pub rr_length : ℕ → ℕ
rr_length rr_type = if rr_type == 1 then 4 else 16

-- `answers` holds addresses that `To4` or `To16` gives back unchanged.
abbrev IsAnswer : ℕ → Bytes → Type 0
IsAnswer rr_type ip = length ip ≡ rr_length rr_type

answer_of-IsAnswer : (rr_type : ℕ) (ip : Bytes) → All (IsAnswer rr_type) (answer_of rr_type ip)
unfolding answer_of
answer_of-IsAnswer rr_type ip = elim (Option-cases (to4 ip)) [
  | inl no4 ↦ elim (Option-cases (to16 ip)) [
    | inl no16 ↦ rw (no4, no16) (ground arith)
    | inr (v6, e) ↦ rw (no4, e) (ground (arith, length-to16 ip v6 e))
  ]
  | inr (v4, e) ↦ rw e (ground (arith, length-to4 ip v4 e))
]

answers_of-IsAnswer :
    (rr_type : ℕ) (ips : List Bytes) → All (IsAnswer rr_type) (answers_of rr_type ips)
unfolding answers_of
answers_of-IsAnswer rr_type [] = tt
answers_of-IsAnswer rr_type (ip ∷ ips) =
    All-append (IsAnswer rr_type) (answer_of rr_type ip) (answers_of rr_type ips)
      (answer_of-IsAnswer rr_type ip) (answers_of-IsAnswer rr_type ips)

length-answer_of : (rr_type : ℕ) (ip : Bytes) → length (answer_of rr_type ip) ≤ 1
unfolding answer_of
length-answer_of rr_type ip = ground arith

length-answers_of : (rr_type : ℕ) (ips : List Bytes) → length (answers_of rr_type ips) ≤ length ips
unfolding answers_of
length-answers_of rr_type [] = omega arith
length-answers_of rr_type (ip ∷ ips) = omega (
  arith,
  length-answers_of rr_type ips,
  length-append (answer_of rr_type ip) (answers_of rr_type ips),
  length-answer_of rr_type ip,
)

length-resource_record :
    (enc_name : Bytes) (rr_type : ℕ) (ip : Bytes)
    → IsAnswer rr_type ip
    → length (resource_record enc_name rr_type ip) ≡ length enc_name + 10 + rr_length rr_type
unfolding resource_record
length-resource_record enc_name rr_type ip h = elim (Bool-cases (rr_type == 1)) [
  | inl e ↦ rw e (
      let four : length ip ≡ 4 = h ∙ rw e in
      rw (to4_four ip four) (
        omega (
          arith,
          length-append enc_name (
              rr_type / 256 % 256
              ∷ rr_type % 256
              ∷ 0x80
              ∷ 0x01
              ∷ 0x00
              ∷ 0x00
              ∷ 0x00
              ∷ 0xF0
              ∷ 0x00
              ∷ 0x04
              ∷ ip),
        )))
  | inr e ↦ rw e (
      let sixteen : length ip ≡ 16 = h ∙ rw e in
      rw (to16_sixteen ip sixteen) (
        omega (
          arith,
          length-append enc_name (
              rr_type / 256 % 256
              ∷ rr_type % 256
              ∷ 0x80
              ∷ 0x01
              ∷ 0x00
              ∷ 0x00
              ∷ 0x00
              ∷ 0xF0
              ∷ 0x00
              ∷ 0x10
              ∷ ip),
        )))
]

length-records :
    (enc_name : Bytes) (rr_type : ℕ) (ips : List Bytes)
    → All (IsAnswer rr_type) ips
    → length (records enc_name rr_type ips)
      ≡ length ips * (length enc_name + 10 + rr_length rr_type)
length-records enc_name rr_type [] h = omega arith
length-records enc_name rr_type (ip ∷ ips) h = omega (
  arith,
  length-append (resource_record enc_name rr_type ip) (records enc_name rr_type ips),
  length-resource_record enc_name rr_type ip h.0,
  length-records enc_name rr_type ips h.1,
)

-- What a non-empty reply is made of: the encoded name, and the addresses of its type.
pub record IsReply (id : ℕ) (name : Bytes) (addrs : List Bytes) (rr_type : ℕ) (resp : Bytes)
    : Type 0 where
  pub enc_name : Bytes
  pub encoded : encode_name name ≡ ok enc_name
  pub some_answer : 0 < length (answers_of rr_type addrs)
  pub bytes :
      resp
      ≡ response_header id (length (answers_of rr_type addrs))
        ++ records enc_name rr_type (answers_of rr_type addrs)
  pub size :
      length resp
      ≡ 12 + length (answers_of rr_type addrs) * (length enc_name + 10 + rr_length rr_type)
  pub fits : length resp ≤ max_packet_size

-- A reply that is not empty is a header of 12 bytes and one record of the same length for each
-- address of its type, and fits a packet.
pub build_response-IsReply :
    (id : ℕ) (name : Bytes) (addrs : List Bytes) (rr_type : ℕ) (resp : Bytes)
    → build_response id name addrs rr_type ≡ ok resp
    → (resp ≡ []) ⊎ IsReply id name addrs rr_type resp
unfolding build_response
build_response-IsReply id name addrs rr_type resp h = elim (Bool-cases (length addrs == 0)) [
  | inl none_given ↦ inl (sym (ok-injective (rw none_given at h)))
  | inr given ↦
      let (enc, encoded, rest) = bind-eq-ok (encode_name name) _ (rw given at h) in
      let answers = answers_of rr_type addrs in
      elim (Bool-cases (length answers == 0)) [
        | inl e ↦ inl (sym (ok-injective (rw e at rest)))
        | inr e ↦
            let (bytes, fits) =
              append_answers-inv enc rr_type answers (response_header id (length answers)) resp
                (omega arith) (rw e at rest) in
            inr (record {
              enc_name = enc;
              encoded = encoded;
              some_answer = ground arith;
              bytes = bytes;
              size = omega (
                arith,
                ap length bytes,
                length-records enc rr_type answers (answers_of-IsAnswer rr_type addrs),
              );
              fits = fits;
            })
      ]
]

-- The other way round: a name that encodes and at least one address of the type give a reply,
-- wherever the packet is within the bound.
pub build_response-fits :
    (id : ℕ) (name enc : Bytes) (addrs : List Bytes) (rr_type : ℕ)
    → encode_name name ≡ ok enc
    → 0 < length (answers_of rr_type addrs)
    → 12 + length (answers_of rr_type addrs) * (length enc + 10 + rr_length rr_type)
      ≤ max_packet_size
    → build_response id name addrs rr_type
      ≡ ok (
          response_header id (length (answers_of rr_type addrs))
          ++ records enc rr_type (answers_of rr_type addrs))
unfolding build_response
build_response-fits id name enc addrs rr_type encoded given fits =
    let answers = answers_of rr_type addrs in
    let more : (length addrs == 0) ≡ false = ground (arith, length-answers_of rr_type addrs) in
    let more' : (length answers == 0) ≡ false = ground arith in
    rw (more, encoded)
      (rw more' (
        append_answers-fits enc rr_type answers (response_header id (length answers))
          (omega (arith, length-records enc rr_type answers (answers_of-IsAnswer rr_type addrs)))))

few_answers : (n k : ℕ) → 14 ≤ k → 12 + n * k ≤ 9036 → n < 65536
few_answers n k h m = grind arith

-- The header that a receiver reads in a reply.
abbrev pub reply_header : ℕ → ℕ → Header
reply_header id count = record {
  id = id;
  flags = 0x8400;
  qd_count = 0;
  an_count = count;
  ns_count = 0;
  ar_count = 0;
}

header_of :
    (id count : ℕ) (tail : Bytes)
    → id < 65536
    → count < 65536
    → read_header (response_header id count ++ tail) ≡ ok (reply_header id count)
unfolding read_header index
header_of id count tail h k = ground (arith)

-- A responder that receives a reply of this program reads the header that was written, with the
-- number of addresses, and finds nothing to answer: replies do not cause replies.
pub parse_intent-build_response :
    (id : ℕ) (name : Bytes) (addrs : List Bytes) (rr_type : ℕ) (resp fqdn : Bytes)
    → id < 65536
    → build_response id name addrs rr_type ≡ ok resp
    → resp ≢ []
    → parse_intent resp fqdn ≡ ok (reply_header id (length (answers_of rr_type addrs)), no_intent)
unfolding parse_intent
parse_intent-build_response id name addrs rr_type resp fqdn small h more =
    elim (build_response-IsReply id name addrs rr_type resp h) [
      | inl e ↦ absurd (more e)
      | inr r ↦
          let n = length (answers_of rr_type addrs) in
          let few : n < 65536 =
            few_answers n (length r.enc_name + 10 + rr_length rr_type) (ground arith)
              (omega (arith, r.size, r.fits)) in
          rw r.bytes
            (rw (header_of id n (records r.enc_name rr_type (answers_of rr_type addrs)) small few))
    ]
