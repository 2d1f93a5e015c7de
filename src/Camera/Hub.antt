-- ===== src/Camera/Hub.antt =====
-- `cameraHub` of creality-discovery/camera.go. The threads that serve the viewers are runs of events:
-- one event is what a thread does under the lock of the hub, or one operation on a channel. A viewer
-- is a number, for the pointer to its `cameraClient`.
pub mod Laws
use dockerset.Base.{
  ℕ, Bool, true, false, not, List, [], ◌∷◌, Option, none, some, Bytes, codes, length, ◌==◌,
  if◌then◌else◌,
}

pub record CameraFrame : Type 0 where
  pub data_bytes : Bytes
  pub config : Bytes

-- `make(chan cameraFrame, 1)`
pub record Channel : Type 0 where
  pub waiting : Option CameraFrame
  pub closed : Bool

abbrev pub new_channel : Channel
new_channel = record { waiting = none; closed = false }

-- `clients` is the map's keys in the order of a walk over it, which Go leaves open.
pub record CameraHub : Type 0 where
  pub clients : List ℕ
  pub codec : Bytes
  pub channels : ℕ → Channel

abbrev pub set_channel : ℕ → Channel → CameraHub → CameraHub
set_channel c ch h = record h { channels = λ j. if j == c then ch else h.channels j }

-- A send with a default: none is the panic of a send on a closed channel.
unfoldable pub send : CameraFrame → Channel → Option Channel
send frame ch =
    if ch.closed
    then none
    else elim ch.waiting [ none ↦ some (record ch { waiting = some frame }) | some old ↦ some ch ]

-- The loop over the clients
unfoldable pub send_all : CameraFrame → List ℕ → CameraHub → Option CameraHub
unfolding send
send_all frame [] h = some h
send_all frame (c ∷ cs) h = elim (send frame (h.channels c)) [
  | none ↦ none
  | some ch ↦ send_all frame cs (set_channel c ch h)
]

unfoldable pub broadcast : Bytes → CameraHub → Option CameraHub
unfolding send_all
broadcast frame h = send_all (record { data_bytes = frame; config = [] }) h.clients h

unfoldable pub broadcast_config : Bytes → CameraHub → Option CameraHub
unfolding send_all
broadcast_config codec h = send_all (record { data_bytes = []; config = codec }) h.clients h

unfoldable pub set_codec : Bytes → CameraHub → Option CameraHub
unfolding broadcast_config
set_codec codec h =
    if length codec == 0 then some h else broadcast_config codec (record h { codec = codec })

unfoldable pub without : ℕ → List ℕ → List ℕ
without c [] = []
without c (x ∷ xs) = if x == c then without c xs else x ∷ without c xs

-- `h.add`, of a client with a new channel
unfoldable pub add : ℕ → CameraHub → CameraHub
unfolding without
add c h =
    let made = set_channel c new_channel h in record made { clients = c ∷ without c h.clients }

-- The two steps of `h.remove`; none is the panic of closing a channel again.
unfoldable pub remove_client : ℕ → CameraHub → CameraHub
unfolding without
remove_client c h = record h { clients = without c h.clients }

unfoldable pub close_channel : ℕ → CameraHub → Option CameraHub
close_channel c h =
    let ch = h.channels c in
    if ch.closed then none else some (set_channel c (record ch { closed = true }) h)

-- `<-c.ch`, where a frame waits
abbrev pub receive : ℕ → CameraHub → CameraHub
receive c h = set_channel c (record (h.channels c) { waiting = none }) h

abbrev pub new_camera_hub : CameraHub
new_camera_hub = record { clients = []; codec = codes "avc1.42E01F"; channels = λ c. new_channel }

-- How far the thread of a viewer is
pub data Stage : Type 0 where
  unconnected : Stage
  watching : Stage
  leaving : Stage
  gone : Stage

pub data Event : Type 0 where
  connects : ℕ → Event
  leaves : ℕ → Event
  closes : ℕ → Event
  reads : ℕ → Event
  frame_arrives : Bytes → Event
  track_starts : Bytes → Event

pub record Relay : Type 0 where
  pub stages : ℕ → Stage
  pub hub : CameraHub

abbrev pub set_stage : ℕ → Stage → (ℕ → Stage) → ℕ → Stage
set_stage c stage stages j = if j == c then stage else stages j

-- A hub that goes on, if the step of it did not panic
abbrev pub with_hub : (ℕ → Stage) → Option CameraHub → Option Relay
with_hub stages none = none
with_hub stages (some h) = some (record { stages = stages; hub = h })

-- An event that the thread of a viewer is not at does not happen: nothing changes.
abbrev pub connect_at : ℕ → Stage → Relay → Option Relay
connect_at c unconnected r = with_hub (set_stage c watching r.stages) (some (add c r.hub))
connect_at c _ r = some r

abbrev pub leave_at : ℕ → Stage → Relay → Option Relay
leave_at c watching r = with_hub (set_stage c leaving r.stages) (some (remove_client c r.hub))
leave_at c _ r = some r

abbrev pub close_at : ℕ → Stage → Relay → Option Relay
close_at c leaving r = with_hub (set_stage c gone r.stages) (close_channel c r.hub)
close_at c _ r = some r

abbrev pub read_at : ℕ → Stage → Relay → Option Relay
read_at c watching r = with_hub r.stages (some (receive c r.hub))
read_at c _ r = some r

unfoldable pub happen : Event → Relay → Option Relay
unfolding add remove_client close_channel broadcast set_codec
happen (connects c) r = connect_at c (r.stages c) r
happen (leaves c) r = leave_at c (r.stages c) r
happen (closes c) r = close_at c (r.stages c) r
happen (reads c) r = read_at c (r.stages c) r
happen (frame_arrives frame) r = with_hub r.stages (broadcast frame r.hub)
happen (track_starts codec) r = with_hub r.stages (set_codec codec r.hub)

-- A run of events: none if a step of it panics
unfoldable pub run : List Event → Relay → Option Relay
unfolding happen
run [] r = some r
run (e ∷ es) r = elim (happen e r) [ none ↦ none | some next ↦ run es next ]

abbrev pub new_relay : Relay
new_relay = record { stages = λ c. unconnected; hub = new_camera_hub }
