-- ===== src/Mdns/Response.antt =====
-- Replies: `buildResponse`.
pub mod Layout
use dockerset.Base.{
  ℕ, ◌+◌, ◌*◌, ◌/◌, ◌%◌, ◌^◌, Bool, not, ◌&&◌, List, [], ◌∷◌, ◌++◌, Option, none, some, ltb, ◌==◌,
  if◌then◌else◌, Bytes, length, Outcome, ok, err, ◌>>=◌,
}
use dockerset.Go.Net.{to4, to16, is_some}
use dockerset.Mdns.Name.{PacketError, response_too_large, encode_name}

abbrev pub max_packet_size : ℕ
max_packet_size = 9036

abbrev pub to_list : Option Bytes → List Bytes
to_list none = []
to_list (some ip) = ip ∷ []

-- A nil slice appends nothing.
abbrev pub or_empty : Option Bytes → Bytes
or_empty none = []
or_empty (some ip) = ip

-- What one address adds to `answers`
unfoldable pub answer_of : ℕ → Bytes → List Bytes
answer_of rr_type ip =
    (if rr_type == 1 && is_some (to4 ip) then to_list (to4 ip) else [])
    ++ (if rr_type == 28 && not (is_some (to4 ip)) && is_some (to16 ip)
        then to_list (to16 ip)
        else [])

unfoldable pub answers_of : ℕ → List Bytes → List Bytes
unfolding answer_of
answers_of rr_type [] = []
answers_of rr_type (ip ∷ ips) = answer_of rr_type ip ++ answers_of rr_type ips

abbrev pub put_uint16 : ℕ → Bytes
put_uint16 n = n / 256 % 256 ∷ n % 256 ∷ []

-- The bytes that one answer adds to the packet
unfoldable pub resource_record : Bytes → ℕ → Bytes → Bytes
resource_record enc_name rr_type ip =
    enc_name
    ++ (put_uint16 rr_type
        ++ (0x80 ∷ 0x01 ∷ 0x00 ∷ 0x00 ∷ 0x00 ∷ 0xF0 ∷ []
            ++ (if rr_type == 1
                then 0x00 ∷ 0x04 ∷ or_empty (to4 ip)
                else 0x00 ∷ 0x10 ∷ or_empty (to16 ip))))

unfoldable pub append_answers : Bytes → ℕ → List Bytes → Bytes → Outcome PacketError Bytes
unfolding resource_record
append_answers enc_name rr_type [] packet = ok packet
append_answers enc_name rr_type (ip ∷ ips) packet =
    let larger = packet ++ resource_record enc_name rr_type ip in
    let rest = append_answers enc_name rr_type ips larger in
    if ltb max_packet_size (length larger) then err response_too_large else rest

-- The header: response and authoritative, no question, `count` answers
abbrev pub response_header : ℕ → ℕ → Bytes
response_header id count =
    put_uint16 id
    ++ (0x84 ∷ 0x00 ∷ 0 ∷ 0 ∷ [] ++ (put_uint16 (count % 2 ^ 16) ++ (0 ∷ 0 ∷ 0 ∷ 0 ∷ [])))

-- `nil, nil` is the empty packet.
unfoldable pub build_response : ℕ → Bytes → List Bytes → ℕ → Outcome PacketError Bytes
unfolding answers_of append_answers
build_response id name addrs rr_type = if length addrs == 0 then ok [] else do
  enc_name ← encode_name name
  let answers = answers_of rr_type addrs
  if length answers == 0
      then ok []
      else append_answers enc_name rr_type answers (response_header id (length answers))
