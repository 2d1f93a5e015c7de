-- ===== src/Mdns/Server/Replies.antt =====
-- What the loop sends: it never faults, and it answers the queries for the host.
use dockerset.Base.{
  ℕ, ◌+◌, ◌*◌, ◌≤◌, ◌<◌, ◌≡◌, ◌≢◌, refl, ap, ◌∙◌, true, false, Bool, not, ◌&&◌, inl, inr, List, [],
  ◌∷◌, ◌++◌, arith, ◌==◌, Bool-cases, none, some, Bytes, length, length-append, take, All, codes,
  Outcome, ok, err, panic, stuck, Returns, if◌then◌else◌,
}
use dockerset.Go.Text.{split}
use dockerset.Go.Net.{to4, to16, is_some}
use dockerset.Go.Text.{to_lower}
use dockerset.Mdns.Response.Layout.{rr_length}
use dockerset.Go.Net.Laws.{to4_four}
use dockerset.Base.{◌⊎◌, take_all}
use dockerset.Base.{◌/◌, ◌%◌, Succeeds, Returns-bind, Succeeds-bind}
use dockerset.Mdns.Name.{PacketError, encode_name, encode_parts}
use dockerset.Mdns.Hostname.Label.{IsHostname, encode_name-IsHostname, local_wire}
use dockerset.Mdns.Query.{Header, Intent, parse_intent}
use dockerset.Mdns.Query.Laws.{
  parse_intent-Returns, query_bytes, query_header, intent_for, parse_intent-query_bytes,
}
use dockerset.Mdns.Response.{
  build_response, append_answers, answers_of, answer_of, response_header, resource_record,
  max_packet_size,
}
use dockerset.Mdns.Response.Layout.{build_response-fits, records}
use dockerset.Mdns.Iface.{Iface, iface_usable_ips, source_ip_matches_interface, Addr}
use dockerset.Mdns.Iface.First.{AreOffers, iface_usable_ips-take}
use dockerset.Mdns.Iface.Select.{IsUsable, iface_usable_ips-IsUsable}
use dockerset.Mdns.Server.{
  Event, read_error, datagram, to_source, to_group, Send, send_both, fqdn_of, answer_intent,
  serve_event, serve_udp,
}

encode_parts-Returns : (ps : List Bytes) (out : Bytes) → Returns (encode_parts ps out)
unfolding encode_parts
encode_parts-Returns [] out = tt
encode_parts-Returns (p ∷ ps) out =
    ground (arith, encode_parts-Returns ps (out ++ (length p % 256 ∷ p)))

append_answers-Returns :
    (enc : Bytes) (rr : ℕ) (ips : List Bytes) (packet : Bytes)
    → Returns (append_answers enc rr ips packet)
unfolding append_answers
append_answers-Returns enc rr [] packet = tt
append_answers-Returns enc rr (ip ∷ ips) packet =
    ground (arith, append_answers-Returns enc rr ips (packet ++ resource_record enc rr ip))

-- `buildResponse` returns at every input.
build_response-Returns :
    (id : ℕ) (name : Bytes) (addrs : List Bytes) (rr : ℕ)
    → Returns (build_response id name addrs rr)
unfolding build_response encode_name
build_response-Returns id name addrs rr = elim (Bool-cases (length addrs == 0)) [
  | inl e ↦ rw e tt
  | inr e ↦ rw e (
      Returns-bind (encode_name name) _
        (Returns-bind (encode_parts (split name b'.') []) _
          (encode_parts-Returns (split name b'.') []) (λ out. ground arith))
        (λ enc. ground (
          arith,
          append_answers-Returns enc rr (answers_of rr addrs)
              (response_header id (length (answers_of rr addrs))),
        )))
]

send_both-Succeeds :
    (src : Bytes) (r : Outcome PacketError Bytes) → Returns r → Succeeds (send_both src r)
unfolding send_both
send_both-Succeeds src (ok resp) h = tt
send_both-Succeeds src (err e) h = tt
send_both-Succeeds src panic h = h
send_both-Succeeds src stuck h = h

Succeeds-if :
    (b : Bool) (r : Outcome PacketError (List Send))
    → Succeeds r
    → Succeeds (if b then r else ok [])
Succeeds-if true r h = h
Succeeds-if false r h = tt

module _ (iface : Iface) (hostname : Bytes) (ipv6 : Bool) where
  answer_intent-Succeeds :
      (src : Bytes) (r : Outcome PacketError (Header × Intent))
      → Returns r
      → Succeeds (answer_intent iface hostname ipv6 src r)
  unfolding answer_intent
  answer_intent-Succeeds src (ok (hdr, intent)) h =
      Succeeds-bind _ _
        (Succeeds-if (intent.want_a && not ipv6) _ (
          send_both-Succeeds src _
            (build_response-Returns hdr.id _ (iface_usable_ips iface false) 1)))
        (λ a.
          Succeeds-bind _ _
            (Succeeds-if (intent.want_aaaa && ipv6) _ (
              send_both-Succeeds src _
                (build_response-Returns hdr.id _ (iface_usable_ips iface true) 28)))
            (λ aaaa. tt))
  answer_intent-Succeeds src (err e) h = tt
  answer_intent-Succeeds src panic h = h
  answer_intent-Succeeds src stuck h = h

  serve_event-Succeeds : (e : Event) → Succeeds (serve_event iface hostname ipv6 e)
  unfolding serve_event
  serve_event-Succeeds read_error = tt
  serve_event-Succeeds (datagram bytes src) =
      let packet = take max_packet_size bytes in
      ground (
        arith,
        answer_intent-Succeeds src (parse_intent packet (fqdn_of hostname))
            (parse_intent-Returns packet (fqdn_of hostname)),
      )

  -- Whatever is received, the loop goes on: no round panics, runs out of fuel or ends in an error.
  pub serve_udp-Succeeds : (events : List Event) → Succeeds (serve_udp iface hostname ipv6 events)
  unfolding serve_udp
  serve_udp-Succeeds [] = tt
  serve_udp-Succeeds (e ∷ es) =
      Succeeds-bind (serve_event iface hostname ipv6 e) _ (serve_event-Succeeds e) (λ sends.
        Succeeds-bind (serve_udp iface hostname ipv6 es) _ (serve_udp-Succeeds es) (λ later. tt))

abbrev pub rr_of : Bool → ℕ
rr_of ipv6 = if ipv6 then 28 else 1

to16-usable : (ip : Bytes) → to4 ip ≡ none → is_some (to16 ip) ≡ true → to16 ip ≡ some ip
unfolding to4 to16
to16-usable ip no4 h = elim (Bool-cases (length ip == 4)) [
  | inl e ↦ let no : some ip ≡ none = rw e at no4 in cc
  | inr e ↦ elim (Bool-cases (length ip == 16)) [
    | inl e16 ↦ rw (e, e16)
    | inr e16 ↦ let no : false ≡ true = rw (e, e16) at h in cc
  ]
]

answers_of-usable :
    (ipv6 : Bool) (ips : List Bytes) → All (IsUsable ipv6) ips → answers_of (rr_of ipv6) ips ≡ ips
unfolding answers_of answer_of
answers_of-usable ipv6 [] h = refl
answers_of-usable false (ip ∷ ips) h = rw (to4_four ip h.0.0, answers_of-usable false ips h.1)
answers_of-usable true (ip ∷ ips) h =
    rw (h.0.0, to16-usable ip h.0.0 h.0.1, answers_of-usable true ips h.1)

serve_event-near :
    (iface : Iface) (hostname bytes src : Bytes) (ipv6 : Bool)
    → 0 < length bytes
    → length bytes ≤ max_packet_size
    → source_ip_matches_interface iface src ipv6 ≡ true
    → serve_event iface hostname ipv6 (datagram bytes src)
      ≡ answer_intent iface hostname ipv6 src (parse_intent bytes (fqdn_of hostname))
unfolding serve_event
serve_event-near iface hostname bytes src ipv6 more fits near =
    rw (take_all max_packet_size bytes fits) (ground arith)

answer_intent-wanted :
    (iface : Iface) (hostname src resp : Bytes) (ipv6 : Bool) (id q_type : ℕ)
    → (q_type ≡ rr_of ipv6) ⊎ (q_type ≡ 255)
    → build_response id (fqdn_of hostname) (iface_usable_ips iface ipv6) (rr_of ipv6) ≡ ok resp
    → 0 < length resp
    → answer_intent iface hostname ipv6 src (ok (query_header id, intent_for q_type))
      ≡ ok ((to_source src, resp) ∷ (to_group, resp) ∷ [])
unfolding answer_intent
answer_intent-wanted iface hostname src resp true id q_type wanted built more = ground arith
answer_intent-wanted iface hostname src resp false id q_type wanted built more = ground arith

reply_fits : (n k : ℕ) → n ≤ 3 → k ≤ 97 → 12 + n * k ≤ 9036
reply_fits n k h m = grind arith

nonempty : (ips : List Bytes) → ips ≢ [] → 0 < length ips
nonempty [] h = absurd (h refl)
nonempty (ip ∷ ips) h = omega arith

record_size : (ipv6 : Bool) (k : ℕ) → k ≤ 71 → k + 10 + rr_length (rr_of ipv6) ≤ 97
record_size true k h = omega arith
record_size false k h = omega arith

take-ne-nil : (ips : List Bytes) → ips ≢ [] → take 3 ips ≢ []
take-ne-nil [] full = full
take-ne-nil (ip ∷ ips) full = λ e. absurd cc

-- The answer to a query for the host shows the addresses that the interface offers.
answer_intent-offered :
    (iface : Iface) (hostname src : Bytes) (ipv6 : Bool) (id q_type : ℕ) (ips : List Bytes)
    → IsHostname hostname
    → (q_type ≡ rr_of ipv6) ⊎ (q_type ≡ 255)
    → iface_usable_ips iface ipv6 ≡ ips
    → ips ≢ []
    → answer_intent iface hostname ipv6 src (ok (query_header id, intent_for q_type)) ≡ (
        let resp =
          response_header id (length ips) ++ records (local_wire hostname) (rr_of ipv6) ips in
        ok ((to_source src, resp) ∷ (to_group, resp) ∷ []))
answer_intent-offered iface hostname src ipv6 id q_type ips name wanted offered full =
    let (usable, few) : All (IsUsable ipv6) ips × (length ips ≤ 3) =
      rw offered at (iface_usable_ips-IsUsable iface ipv6) in
    let same = answers_of-usable ipv6 ips usable in
    let enc = local_wire hostname in
    let wire_size : length enc ≡ length hostname + 8 =
      omega (arith, length-append hostname (5 ∷ codes "local" ++ (0 ∷ []))) in
    let some_ip : 0 < length (answers_of (rr_of ipv6) ips) = rw same (nonempty ips full) in
    let fits : 12
          + length (answers_of (rr_of ipv6) ips) * (length enc + 10 + rr_length (rr_of ipv6))
        ≤ max_packet_size =
      rw same (
        reply_fits (length ips) (length enc + 10 + rr_length (rr_of ipv6)) few
          (record_size ipv6 (length enc) (omega (arith, name.short)))) in
    let built =
      build_response-fits id (fqdn_of hostname) enc ips (rr_of ipv6)
        (encode_name-IsHostname hostname name) some_ip fits in
    answer_intent-wanted iface hostname src _ ipv6 id q_type wanted (rw offered (rw same at built))
      (omega arith)

-- A query with one uncompressed question for the host's name, in letters of any case, of a type of
-- the listener's family or for any type, that comes from the interface's own subnet and fits the
-- buffer of 9036 bytes, is answered to the source and to the group where the interface has a usable
-- address. The reply has the first three of its usable addresses: those of the family that are
-- given, not unspecified, multicast or loopback, nor, for IPv6, link-local.
pub serve_event-query_bytes :
    (iface : Iface) (hostname src asked enc : Bytes) (ipv6 : Bool) (id q_type q_class : ℕ)
    (addrs : List Addr) (ips : List Bytes)
    → IsHostname hostname
    → encode_name asked ≡ ok enc
    → to_lower asked ≡ fqdn_of hostname
    → length enc ≤ 9020
    → (q_type ≡ rr_of ipv6) ⊎ (q_type ≡ 255)
    → source_ip_matches_interface iface src ipv6 ≡ true
    → iface.addrs ≡ some addrs
    → AreOffers ipv6 addrs ips
    → ips ≢ []
    → serve_event iface hostname ipv6 (datagram (query_bytes id q_type q_class enc) src) ≡ (
        let shown = take 3 ips in
        let resp =
          response_header id (length shown) ++ records (local_wire hostname) (rr_of ipv6) shown in
        ok ((to_source src, resp) ∷ (to_group, resp) ∷ []))
serve_event-query_bytes iface hostname src asked enc ipv6 id q_type q_class addrs ips name encoded
      folded small wanted near given usable full =
    let offered = iface_usable_ips-take iface ipv6 addrs ips given usable in
    let bytes = query_bytes id q_type q_class enc in
    let size : length bytes ≡ length enc + 16 = omega (
      arith,
      length-append enc (q_type / 256 ∷ q_type % 256 ∷ q_class / 256 ∷ q_class % 256 ∷ []),
    ) in
    serve_event-near iface hostname bytes src ipv6 (omega arith) (omega arith) near
    ∙ ap (answer_intent iface hostname ipv6 src)
        (parse_intent-query_bytes id q_type q_class asked enc (fqdn_of hostname) encoded folded)
    ∙ answer_intent-offered iface hostname src ipv6 id q_type (take 3 ips) name wanted offered
        (take-ne-nil ips full)
