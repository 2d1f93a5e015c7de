-- ===== src/Tests/Camera.antt =====
-- A short video track, a hub with one viewer, and the texts that the camera sends.
use dockerset.Base.{◌≡◌, refl, Bool, true, ◌↔◌, List, [], ◌∷◌, map, none, some, Bytes, codes, arith}
use dockerset.Camera.Idr.{contains_h264_idr, HasIdr, contains_h264_idr-HasIdr}
use dockerset.Camera.Frame.{handle_packets}
use dockerset.Camera.Frame.Laws.{read_message, Tick, stamped, frames, handle_packets-frames}
use dockerset.Camera.Hub.{
  Event, connects, leaves, closes, reads, frame_arrives, track_starts, Relay, run, new_relay,
}
use dockerset.Camera.Hub.Laws.{IsSound, new_relay-IsSound, run-IsSound}
use dockerset.Camera.Sdp.{Attribute, MediaDescription, fix_creality_sdp}
use dockerset.Camera.Sdp.Laws.{IsKept, fix_creality_sdp-IsKept}

abbrev idr_unit : Bytes
idr_unit = 9 ∷ 0 ∷ 0 ∷ 0 ∷ 1 ∷ 0x65 ∷ 7 ∷ []

unit_found : contains_h264_idr idr_unit ≡ true
unfolding contains_h264_idr
unit_found = refl

contains_h264_idr-HasIdr_example : (contains_h264_idr idr_unit ≡ true) ↔ HasIdr idr_unit
contains_h264_idr-HasIdr_example = contains_h264_idr-HasIdr idr_unit

-- The clock wraps before the second packet.
abbrev ticks : List Tick
ticks = (idr_unit, 900) ∷ ([], 1000) ∷ []

abbrev same_bytes : Bytes → Bytes
same_bytes b = b

handle_packets-frames_example :
    map read_message
      (handle_packets same_bytes none (map (stamped 4294967000) ((codes "a", 0) ∷ ticks)))
    ≡ frames same_bytes ((codes "a", 0) ∷ ticks)
handle_packets-frames_example =
    handle_packets-frames same_bytes 4294967000 (codes "a") ticks (omega arith) refl
      (omega arith, (omega arith, tt))

abbrev events : List Event
events =
    connects 1
    ∷ track_starts (codes "avc1.640028")
    ∷ frame_arrives (codes "f")
    ∷ reads 1
    ∷ leaves 1
    ∷ frame_arrives (codes "g")
    ∷ closes 1
    ∷ closes 1
    ∷ []

run-IsSound_example : (last : Relay) × (run events new_relay ≡ some last) × IsSound last
run-IsSound_example = run-IsSound events new_relay new_relay-IsSound

abbrev packetization : Bytes
packetization = codes "packetization-mode=1;"

abbrev media : MediaDescription Bool
media = record {
  formats = codes "96" ∷ codes "102" ∷ [];
  attributes =
      record { key = codes "rtpmap"; value = codes "96 VP8/90000" }
      ∷ record { key = codes "rtpmap"; value = codes "102 H264/90000" }
      ∷ [];
  other = true;
}

fix_creality_sdp-IsKept_example :
    (kept : List Attribute) × IsKept (codes "96") media.attributes kept
    × (fix_creality_sdp (λ v. some (media ∷ [], v)) (λ s. some s.1) (codes "s") ≡ some (codes "s"))
fix_creality_sdp-IsKept_example =
    fix_creality_sdp-IsKept (λ v. some (media ∷ [], v)) (λ s. some s.1) (codes "s") (codes "96")
      (codes "102") [] media [] (codes "s") refl refl
