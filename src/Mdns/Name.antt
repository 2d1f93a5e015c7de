-- ===== src/Mdns/Name.antt =====
-- Names on the wire: `parseName`, `parseLabels` and `encodeName`.
pub mod Termination
pub mod RoundTrip
use dockerset.Base.{
  ℕ, zero, suc, ◌+◌, ◌*◌, ◌/◌, ◌%◌, Bool, ◌||◌, List, [], ◌∷◌, ◌++◌, leb, ltb, ◌==◌, if◌then◌else◌,
  Bytes, length, Outcome, ok, err, stuck, ◌>>=◌, index, slice,
}
use dockerset.Go.Text.{to_lower, split, join}

pub data PacketError : Type 0 where
  too_many_pointers offset_out_of_range truncated_name invalid_label_length : PacketError
  label_out_of_bounds truncated_pointer invalid_label_encoding name_too_long : PacketError
  packet_too_short truncated_question : PacketError
  invalid_label encoded_name_too_long response_too_large : PacketError

abbrev pub max_name_length : ℕ
max_name_length = 255

-- The case `0xC0` of the loop: `l` is the byte at index `i`, and `jump` the recursive call.
unfoldable pub follow :
    (ℕ → Outcome PacketError (List Bytes × ℕ))
    → Bytes
    → ℕ
    → ℕ
    → List Bytes
    → Outcome PacketError (List Bytes × ℕ)
follow jump packet i l labels = if leb (length packet) (i + 1) then err truncated_pointer else do
  low ← index packet (i + 1)
  (ptr_labels, next) ← jump (l % 64 * 256 + low)
  ok (labels ++ ptr_labels, i + 2)

-- The body of the loop of `parseLabels`: `l` is the byte at index `i`, `labels` what was read so far,
-- and `next` the rest of the loop. For a byte `l`, `l & 0xC0` is read as `l / 64`, and `l & 0x3F` as
-- `l % 64`.
unfoldable pub scan_byte :
    (ℕ → Outcome PacketError (List Bytes × ℕ))
    → Bytes
    → (ℕ → List Bytes → Outcome PacketError (List Bytes × ℕ))
    → ℕ
    → ℕ
    → List Bytes
    → Outcome PacketError (List Bytes × ℕ)
unfolding follow
scan_byte jump packet next i l labels =
    if l / 64 == 0
    then if l == 0
      then ok (labels, i + 1)
      else if ltb 63 l
      then err invalid_label_length
      else if ltb (length packet) (i + 1 + l)
      then err label_out_of_bounds
      else (do label ← slice packet (i + 1) (i + 1 + l); next (i + 1 + l) (labels ++ (label ∷ [])))
    else if l / 64 == 3
    then follow jump packet i l labels
    else err invalid_label_encoding

-- The loop itself.
unfoldable pub scan :
    (ℕ → Outcome PacketError (List Bytes × ℕ))
    → Bytes
    → ℕ
    → ℕ
    → List Bytes
    → Outcome PacketError (List Bytes × ℕ)
unfolding scan_byte
scan jump packet zero i labels = stuck
scan jump packet (suc fuel) i labels =
    if leb (length packet) i
    then err truncated_name
    else do l ← index packet i; scan_byte jump packet (scan jump packet fuel) i l labels

-- The first argument counts the pointers that may still be followed, 11 - depth. A round of the
-- loop takes a byte at least, so `length packet + 1` rounds are enough.
unfoldable pub parse_labels : ℕ → Bytes → ℕ → Outcome PacketError (List Bytes × ℕ)
unfolding scan
parse_labels zero packet start = err too_many_pointers
parse_labels (suc left) packet start =
    if leb (length packet) start
    then err offset_out_of_range
    else scan (parse_labels left packet) packet (length packet + 1) start []

-- `parseName` behind the call of `parseLabels`
unfoldable pub finish_name : Outcome PacketError (List Bytes × ℕ) → Outcome PacketError (Bytes × ℕ)
finish_name parsed = do
  (labels, next) ← parsed
  let name = join labels b'.'
  if ltb max_name_length (length name) then err name_too_long else ok (to_lower name, next)

-- `parseName` returns the name and the new `*off`.
unfoldable pub parse_name : Bytes → ℕ → Outcome PacketError (Bytes × ℕ)
unfolding parse_labels finish_name
parse_name packet off = finish_name (parse_labels 11 packet off)

-- The loop of `encodeName` over the parts
unfoldable pub encode_parts : List Bytes → Bytes → Outcome PacketError Bytes
encode_parts [] out = ok out
encode_parts (p ∷ ps) out =
    let rest = encode_parts ps (out ++ (length p % 256 ∷ p)) in
    if length p == 0 || ltb 63 (length p) then err invalid_label else rest

unfoldable pub encode_name : Bytes → Outcome PacketError Bytes
unfolding encode_parts
encode_name name = do
  out ← encode_parts (split name b'.') []
  if ltb (max_name_length + 1) (length (out ++ (0 ∷ [])))
      then err encoded_name_too_long
      else ok (out ++ (0 ∷ []))
