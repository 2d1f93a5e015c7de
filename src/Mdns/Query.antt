-- ===== src/Mdns/Query.antt =====
-- Queries: `readHeader`, `parseQuestions` and `parseIntent`.
pub mod Laws
use dockerset.Base.{
  ℕ, zero, suc, ◌+◌, ◌*◌, ◌/◌, ◌%◌, Bool, true, false, not, List, [], ◌∷◌, ◌++◌, leb, ltb, ◌==◌,
  ◌===◌, if◌then◌else◌, Bytes, length, Outcome, ok, err, ◌>>=◌, uint16,
}
use dockerset.Mdns.Name.{PacketError, packet_too_short, truncated_question, parse_name}

-- `dnsHeader`
pub record Header : Type 0 where
  pub id : ℕ
  pub flags : ℕ
  pub qd_count : ℕ
  pub an_count : ℕ
  pub ns_count : ℕ
  pub ar_count : ℕ

-- `dnsQuestion`
pub record Question : Type 0 where
  pub name : Bytes
  pub q_type : ℕ
  pub q_class : ℕ

-- `queryIntent`
pub record Intent : Type 0 where
  pub want_a : Bool
  pub want_aaaa : Bool

unfoldable pub read_header : Bytes → Outcome PacketError Header
unfolding uint16
read_header packet = if ltb (length packet) 12 then err packet_too_short else do
  id ← uint16 packet 0
  flags ← uint16 packet 2
  qd_count ← uint16 packet 4
  an_count ← uint16 packet 6
  ns_count ← uint16 packet 8
  ar_count ← uint16 packet 10
  ok (record {
    id = id;
    flags = flags;
    qd_count = qd_count;
    an_count = an_count;
    ns_count = ns_count;
    ar_count = ar_count;
  })

-- What the loop of `parseQuestions` reads behind a name that ends at `off`.
unfoldable pub question_at :
    Bytes
    → Bytes
    → ℕ
    → (ℕ → Question → Outcome PacketError (List Question))
    → Outcome PacketError (List Question)
unfolding uint16
question_at packet name off next =
    if ltb (length packet) (off + 4) then err truncated_question else do
      q_type ← uint16 packet off
      q_class ← uint16 packet (off + 2)
      next (off + 4) (record { name = name; q_type = q_type; q_class = q_class })

-- The loop of `parseQuestions`; the first argument counts the questions left.
unfoldable pub questions_from : ℕ → Bytes → ℕ → List Question → Outcome PacketError (List Question)
unfolding question_at parse_name
questions_from zero packet off questions = ok questions
questions_from (suc left) packet off questions = do
  (name, next) ← parse_name packet off
  question_at packet name next (λ o q. questions_from left packet o (questions ++ (q ∷ [])))

unfoldable pub parse_questions : Bytes → ℕ → Outcome PacketError (List Question)
unfolding questions_from
parse_questions packet qd_count = questions_from qd_count packet 12 []

abbrev pub no_intent : Intent
no_intent = record { want_a = false; want_aaaa = false }

-- One round of the loop over the questions in `parseIntent`
unfoldable pub add_question : Bytes → Intent → Question → Intent
add_question fqdn intent q =
    if not (q.name === fqdn)
    then intent
    else if q.q_type == 1
    then record intent { want_a = true }
    else if q.q_type == 28
    then record intent { want_aaaa = true }
    else if q.q_type == 255
    then record { want_a = true; want_aaaa = true }
    else intent

unfoldable pub intent_of : Bytes → Intent → List Question → Intent
unfolding add_question
intent_of fqdn intent [] = intent
intent_of fqdn intent (q ∷ qs) = intent_of fqdn (add_question fqdn intent q) qs

-- `hdr.Flags&0x8000 != 0` for a number of 16 bits
abbrev pub is_response : Header → Bool
is_response hdr = not (hdr.flags / 0x8000 % 2 == 0)

unfoldable pub parse_intent : Bytes → Bytes → Outcome PacketError (Header × Intent)
unfolding read_header parse_questions intent_of
parse_intent packet fqdn = do
  hdr ← read_header packet
  if is_response hdr then ok (hdr, no_intent) else do
    questions ← parse_questions packet hdr.qd_count
    ok (hdr, intent_of fqdn no_intent questions)
