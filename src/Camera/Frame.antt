-- ===== src/Camera/Frame.antt =====
-- `makeCameraFrameHandler` of creality-discovery/camera.go. The decoder of the payload is an argument.
pub mod Laws
use dockerset.Base.{
  ℕ, ◌+◌, ◌-◌, ◌*◌, ◌/◌, ◌%◌, ◌^◌, Bool, true, false, List, [], ◌∷◌, ◌++◌, Option, none, some,
  Bytes, length, ◌==◌, if◌then◌else◌, arith, suc, zero,
}
use dockerset.Camera.Idr.{contains_h264_idr}

-- What the handler reads of an `rtp.Packet`; the timestamp is below `2 ^ 32`.
pub record Packet : Type 0 where
  pub payload : Bytes
  pub timestamp : ℕ

-- The last `k` bytes of a number, the highest first
unfoldable pub big_endian : ℕ → ℕ → Bytes
big_endian zero n = []
big_endian (suc k) n = big_endian k (n / 256) ++ (n % 256 ∷ [])

-- `binary.BigEndian.PutUint64`
abbrev pub put_uint64 : ℕ → Bytes
put_uint64 = big_endian 8

-- `uint64(uint32(packet.Timestamp-firstTS)) * 1_000_000 / 90_000`
unfoldable pub timestamp_us : ℕ → ℕ → ℕ
timestamp_us first_ts timestamp =
    ((timestamp + 2 ^ 32 - first_ts) % 2 ^ 32) * 1000000 % 2 ^ 64 / 90000

-- The message of a frame
unfoldable pub frame_message : ℕ → Bytes → Bytes
unfolding contains_h264_idr big_endian
frame_message us annex_b = put_uint64 us ++ ((if contains_h264_idr annex_b then 1 else 0) ∷ annex_b)

-- A call of the handler: `firstTS`, once a packet has set it, and the message that is broadcast
unfoldable pub handle_packet : (Bytes → Bytes) → Option ℕ → Packet → Option ℕ × Option Bytes
unfolding timestamp_us frame_message
handle_packet decode first_ts packet =
    if length packet.payload == 0
    then (first_ts, none)
    else let first : ℕ = elim first_ts [ none ↦ packet.timestamp | some ts ↦ ts ] in
      (
        some first,
        some (frame_message (timestamp_us first packet.timestamp) (decode packet.payload)),
      )

abbrev pub keep : Option Bytes → List Bytes → List Bytes
keep none messages = messages
keep (some m) messages = m ∷ messages

-- The messages of the packets that the handler gets in turn, from the depacketizer
unfoldable pub handle_packets : (Bytes → Bytes) → Option ℕ → List Packet → List Bytes
handle_packets decode first_ts [] = []
handle_packets decode first_ts (p ∷ ps) =
    let handled = handle_packet decode first_ts p in
    keep handled.1 (handle_packets decode handled.0 ps)
