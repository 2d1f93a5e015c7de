-- ===== src/Camera/Hub/Laws.antt =====
-- No run of the hub panics.
use dockerset.Base.{
  ℕ, ◌≡◌, ◌≢◌, refl, sym, ap, ◌∙◌, inl, inr, Bool, true, false, List, [], ◌∷◌, Option, none, some,
  Bytes, length, ◌==◌, arith, In, Bool-cases, Option-cases,
}
use dockerset.Camera.Hub.{
  CameraFrame, Channel, CameraHub, set_channel, send, send_all, broadcast, broadcast_config,
  set_codec, without, add, remove_client, close_channel, receive, Stage, unconnected, watching,
  leaving, gone, Event, connects, leaves, closes, reads, frame_arrives, track_starts, Relay,
  set_stage, with_hub, connect_at, leave_at, close_at, read_at, happen, run, new_relay,
}

sent-closed :
    (frame : CameraFrame) (ch : Channel)
    → ch.closed ≡ false
    → (sent : Channel) × (send frame ch ≡ some sent) × (sent.closed ≡ ch.closed)
unfolding send
sent-closed frame ch open_yet = elim (Option-cases ch.waiting) [
  | inl room ↦ (
    record { waiting = some frame; closed = false },
    rw (open_yet, room)
        (ap (λ (b : Bool). some (record { waiting = some frame; closed = b })) open_yet),
    sym open_yet,
  )
  | inr (old, full) ↦ (ch, simp (open_yet, full), refl)
]

-- A hub with the same clients, and the same channels closed
Alike : CameraHub → CameraHub → Type 0
Alike h k = (k.clients ≡ h.clients) × ((c : ℕ) → (k.channels c).closed ≡ (h.channels c).closed)

Alike-refl : (h : CameraHub) → Alike h h
unfolding Alike
Alike-refl h = (refl, λ c. refl)

set_channel-Alike :
    (c : ℕ) (ch : Channel) (h : CameraHub)
    → ch.closed ≡ (h.channels c).closed
    → Alike h (set_channel c ch h)
unfolding Alike
set_channel-Alike c ch h same = (
  refl,
  λ j. elim (Bool-cases (j == c)) [
    | inl here ↦ (let e : j ≡ c = ground (arith, here) in rw (here, e) same)
    | inr other ↦ rw other refl
  ],
)

send_all-Alike :
    (frame : CameraFrame) (cs : List ℕ) (h : CameraHub)
    → ((c : ℕ) → In c cs → (h.channels c).closed ≡ false)
    → (k : CameraHub) × (send_all frame cs h ≡ some k) × Alike h k
unfolding send_all Alike
send_all-Alike frame [] h all_open = (h, refl, (refl, λ c. refl))
send_all-Alike frame (c ∷ cs) h all_open =
    let (ch, e, same) = sent-closed frame (h.channels c) (all_open c (inl refl)) in
    let (clients, channels) = set_channel-Alike c ch h same in
    let (k, rest, (clients1, channels1)) =
      send_all-Alike frame cs (set_channel c ch h) (λ j m. channels j ∙ all_open j (inr m)) in
    (k, rw (e, send_all) rest, (clients1 ∙ clients, λ j. channels1 j ∙ channels j))

-- The thread of a viewer still holds its channel.
abbrev holds : Stage → Bool
holds watching = true
holds leaving = true
holds _ = false

-- The clients of the hub are the viewers that watch, and a channel is open while its thread holds it.
pub IsSound : Relay → Type 0
IsSound r =
    ((c : ℕ) → In c r.hub.clients → r.stages c ≡ watching)
    × ((c : ℕ) → r.stages c ≡ watching → In c r.hub.clients)
    × ((c : ℕ) → holds (r.stages c) ≡ true → (r.hub.channels c).closed ≡ false)

In-without : (c j : ℕ) (cs : List ℕ) → In j (without c cs) → In j cs × (j ≢ c)
unfolding without
In-without c j [] m = absurd m
In-without c j (x ∷ cs) m = elim (Bool-cases (x == c)) [
  | inl same ↦ (let (old, other) = In-without c j cs (rw (same, without) at m) in (inr old, other))
  | inr apart ↦
      let there : In j (x ∷ without c cs) = rw (apart, without) at m in
      elim there [
        | inl e ↦ (inl e, λ same. absurd (ground (arith, apart, e, same)))
        | inr later ↦ (let (old, other) = In-without c j cs later in (inr old, other))
      ]
]

without-In : (c j : ℕ) (cs : List ℕ) → In j cs → j ≢ c → In j (without c cs)
unfolding without
without-In c j [] m other = absurd m
without-In c j (x ∷ cs) m other = elim (Bool-cases (x == c)) [
  | inl same ↦
      rw (same, without)
        (elim m [
          | inl e ↦ absurd (other (ground (arith, same, e)))
          | inr old ↦ without-In c j cs old other
        ])
  | inr apart ↦
      rw (apart, without) (elim m [ inl e ↦ inl e | inr old ↦ inr (without-In c j cs old other) ])
]

Goes : Option Relay → Type 0
Goes o = (next : Relay) × (o ≡ some next) × IsSound next

Alike-Goes :
    (r : Relay) (o : Option CameraHub)
    → IsSound r
    → (k : CameraHub) × (o ≡ some k) × Alike r.hub k
    → Goes (with_hub r.stages o)
unfolding Goes IsSound Alike
Alike-Goes r o (to, from, opened) (k, e, (clients, channels)) = (
  record { stages = r.stages; hub = k },
  rw e refl,
  ((λ c m. to c (rw clients at m), λ c w. rw clients (from c w), λ c h. channels c ∙ opened c h)),
)

connect_at-Goes : (c : ℕ) (r : Relay) (stage : Stage) → IsSound r → Goes (connect_at c stage r)
unfolding Goes IsSound add
connect_at-Goes c r unconnected (to, from, opened) = (
  record { stages = set_stage c watching r.stages; hub = add c r.hub },
  refl,
  (
    λ j m. elim (Bool-cases (j == c)) [
      | inl here ↦ rw here refl
      | inr other ↦ rw other (elim m [
        | inl e ↦ absurd (ground (arith, other, e))
        | inr old ↦ to j ((In-without c j r.hub.clients old).0)
      ])
    ],
    λ j w. elim (Bool-cases (j == c)) [
      | inl here ↦ inl (ground (arith, here))
      | inr other ↦
          (let still : r.stages j ≡ watching = rw other at w in
            inr (
              without-In c j r.hub.clients (from j still) (λ e. absurd (ground (arith, other, e)))))
    ],
    λ j h. elim (Bool-cases (j == c)) [
      | inl here ↦ rw here refl
      | inr other ↦
          (let held : holds (r.stages j) ≡ true = rw other at h in rw other (opened j held))
    ],
  ),
)
connect_at-Goes c r watching sound = (r, refl, sound)
connect_at-Goes c r leaving sound = (r, refl, sound)
connect_at-Goes c r gone sound = (r, refl, sound)

leave_at-Goes :
    (c : ℕ) (r : Relay) (stage : Stage) → r.stages c ≡ stage → IsSound r → Goes (leave_at c stage r)
unfolding Goes IsSound remove_client
leave_at-Goes c r watching at_c (to, from, opened) = (
  record { stages = set_stage c leaving r.stages; hub = remove_client c r.hub },
  refl,
  (
    λ j m.
        let (old, other) = In-without c j r.hub.clients m in
        elim (Bool-cases (j == c)) [
          | inl here ↦ absurd (ground (arith, here, other))
          | inr apart ↦ rw apart (to j old)
        ],
    λ j w. elim (Bool-cases (j == c)) [
      | inl here ↦ (let wrong : leaving ≡ watching = rw here at w in absurd cc)
      | inr other ↦
          (let still : r.stages j ≡ watching = rw other at w in
            without-In c j r.hub.clients (from j still) (λ e. absurd (ground (arith, other, e))))
    ],
    λ j h. elim (Bool-cases (j == c)) [
      | inl here ↦ (let e : j ≡ c = ground (arith, here) in rw e (opened c (rw at_c refl)))
      | inr other ↦ (let held : holds (r.stages j) ≡ true = rw other at h in opened j held)
    ],
  ),
)
leave_at-Goes c r unconnected at_c sound = (r, refl, sound)
leave_at-Goes c r leaving at_c sound = (r, refl, sound)
leave_at-Goes c r gone at_c sound = (r, refl, sound)

close_at-Goes :
    (c : ℕ) (r : Relay) (stage : Stage) → r.stages c ≡ stage → IsSound r → Goes (close_at c stage r)
unfolding Goes IsSound close_channel
close_at-Goes c r leaving at_c (to, from, opened) =
    let open_yet : (r.hub.channels c).closed ≡ false = opened c (rw at_c refl) in
    (
      record {
        stages = set_stage c gone r.stages;
        hub = set_channel c (record (r.hub.channels c) { closed = true }) r.hub;
      },
      rw open_yet refl,
      (
        λ j m. elim (Bool-cases (j == c)) [
          | inl here ↦
              (let e : j ≡ c = ground (arith, here) in
                let wrong : leaving ≡ watching = sym at_c ∙ (rw e at (to j m)) in absurd cc)
          | inr apart ↦ rw apart (to j m)
        ],
        λ j w. elim (Bool-cases (j == c)) [
          | inl here ↦ (let wrong : gone ≡ watching = rw here at w in absurd cc)
          | inr other ↦ (let still : r.stages j ≡ watching = rw other at w in from j still)
        ],
        λ j h. elim (Bool-cases (j == c)) [
          | inl here ↦ (let wrong : false ≡ true = rw here at h in absurd cc)
          | inr other ↦
              (let held : holds (r.stages j) ≡ true = rw other at h in rw other (opened j held))
        ],
      ),
    )
close_at-Goes c r unconnected at_c sound = (r, refl, sound)
close_at-Goes c r watching at_c sound = (r, refl, sound)
close_at-Goes c r gone at_c sound = (r, refl, sound)

read_at-Goes : (c : ℕ) (r : Relay) (stage : Stage) → IsSound r → Goes (read_at c stage r)
unfolding Goes
read_at-Goes c r watching sound = Alike-Goes r (some (receive c r.hub)) sound (
  receive c r.hub,
  refl,
  set_channel-Alike c (record (r.hub.channels c) { waiting = none }) r.hub refl,
)
read_at-Goes c r unconnected sound = (r, refl, sound)
read_at-Goes c r leaving sound = (r, refl, sound)
read_at-Goes c r gone sound = (r, refl, sound)

-- What is sent to the clients of a sound hub is sent to open channels.
sent-Goes :
    (r : Relay) (frame : CameraFrame) (codec : Bytes)
    → IsSound r
    → Goes (with_hub r.stages (send_all frame r.hub.clients (record r.hub { codec = codec })))
unfolding IsSound Alike
sent-Goes r frame codec (to, from, opened) =
    Alike-Goes r (send_all frame r.hub.clients (record r.hub { codec = codec })) (to, from, opened)
      (send_all-Alike frame r.hub.clients (record r.hub { codec = codec })
        (λ c m. opened c (rw (to c m) refl)))

happen-Goes : (e : Event) (r : Relay) → IsSound r → Goes (happen e r)
unfolding happen broadcast set_codec broadcast_config
happen-Goes (connects c) r sound = connect_at-Goes c r (r.stages c) sound
happen-Goes (leaves c) r sound = leave_at-Goes c r (r.stages c) refl sound
happen-Goes (closes c) r sound = close_at-Goes c r (r.stages c) refl sound
happen-Goes (reads c) r sound = read_at-Goes c r (r.stages c) sound
happen-Goes (frame_arrives frame) r sound =
    sent-Goes r (record { data_bytes = frame; config = [] }) r.hub.codec sound
happen-Goes (track_starts codec) r sound = elim (Bool-cases (length codec == 0)) [
  | inl empty ↦ rw empty (Alike-Goes r (some r.hub) sound (r.hub, refl, Alike-refl r.hub))
  | inr full ↦ rw full (sent-Goes r (record { data_bytes = []; config = codec }) codec sound)
]

-- From a hub whose clients are the viewers that watch, and whose channels are open while the threads
-- of their viewers hold them, every run of events goes on to such a hub: no send and no second close
-- of a closed channel panics, however the threads of viewers and frames alternate.
pub run-IsSound :
    (events : List Event) (r : Relay)
    → IsSound r
    → (last : Relay) × (run events r ≡ some last) × IsSound last
unfolding run Goes
run-IsSound [] r sound = (r, refl, sound)
run-IsSound (e ∷ events) r sound =
    let (next, here, kept) = happen-Goes e r sound in
    let (last, rest, end) = run-IsSound events next kept in (last, rw (here, run) rest, end)

pub new_relay-IsSound : IsSound new_relay
unfolding IsSound
new_relay-IsSound = (λ c m. absurd m, λ c w. absurd (ground (arith, w)), λ c h. refl)
