-- ===== src/Camera/Frame/Laws.antt =====
-- What a viewer reads in the messages of the packets.
use dockerset.Base.{
  ℕ, zero, suc, ◌+◌, ◌-◌, ◌*◌, ◌/◌, ◌%◌, ◌^◌, ◌≡◌, refl, sym, ap, ◌∙◌, ◌<◌, Bool, true, false, List,
  [], ◌∷◌, ◌++◌, map, Option, none, some, Bytes, length, ◌==◌, if◌then◌else◌, arith, take, drop,
  take-append, drop-append, length-append, Bool-cases, inl, inr, All, get_or,
}
use dockerset.Camera.Idr.{contains_h264_idr}
use dockerset.Camera.Frame.{
  Packet, big_endian, timestamp_us, frame_message, handle_packet, keep, handle_packets,
}

-- The number that bytes stand for, after `acc`
unfoldable pub number : ℕ → Bytes → ℕ
number acc [] = acc
number acc (b ∷ bs) = number (acc * 256 + b) bs

number_append :
    (acc : ℕ) (bs : Bytes) (b : ℕ) → number acc (bs ++ (b ∷ [])) ≡ number acc bs * 256 + b
unfolding number
number_append acc [] b = refl
number_append acc (x ∷ bs) b = number_append (acc * 256 + x) bs b

pow_suc : (k : ℕ) → 256 ^ suc k ≡ 256 ^ k * 256
pow_suc k = omega arith

number-big_endian : (k n : ℕ) → n < 256 ^ k → number 0 (big_endian k n) ≡ n
unfolding big_endian number
number-big_endian zero n lt = omega arith
number-big_endian (suc k) n lt =
    let below : n / 256 < 256 ^ k = (let e = pow_suc k in omega (arith, lt, e)) in
    number_append 0 (big_endian k (n / 256)) (n % 256)
    ∙ ap (λ (m : ℕ). m * 256 + n % 256) (number-big_endian k (n / 256) below)
    ∙ omega arith

length-big_endian : (k n : ℕ) → length (big_endian k n) ≡ k
unfolding big_endian
length-big_endian zero n = refl
length-big_endian (suc k) n =
    let one = length-append (big_endian k (n / 256)) (n % 256 ∷ []) in
    let rest = length-big_endian k (n / 256) in omega (arith, one, rest)

-- A clock that has gone on by `d` ticks since the first timestamp, with its wrap at 32 bits
timestamp_us_lem :
    (first d : ℕ)
    → first < 2 ^ 32
    → d < 2 ^ 32
    → timestamp_us first ((first + d) % 2 ^ 32) ≡ d * 1000000 / 90000
unfolding timestamp_us
timestamp_us_lem first d first_low d_low =
    let elapsed : ((first + d) % 2 ^ 32 + 2 ^ 32 - first) % 2 ^ 32 ≡ d = omega arith in
    let fits : d * 1000000 % 2 ^ 64 ≡ d * 1000000 = omega arith in
    rw (timestamp_us, elapsed, fits) refl

-- What the bytes of a message say: the time, whether the frame has an IDR picture, and the frame
abbrev pub read_message : Bytes → ℕ × Bool × Bytes
read_message m = (number 0 (take 8 m), get_or (drop 8 m) 0 0 == 1, drop 1 (drop 8 m))

parts-read :
    (us flag : ℕ) (b : Bytes)
    → us < 2 ^ 64
    → read_message (big_endian 8 us ++ (flag ∷ b)) ≡ (us, flag == 1, b)
parts-read us flag b low =
    let eight : 8 ≡ length (big_endian 8 us) = sym (length-big_endian 8 us) in
    rw
      (
        take-append (big_endian 8 us) (flag ∷ b) 8 eight,
        drop-append (big_endian 8 us) (flag ∷ b) 8 eight,
        number-big_endian 8 us low,
      )
      refl

frame_message-read :
    (us : ℕ) (annex_b : Bytes)
    → us < 2 ^ 64
    → read_message (frame_message us annex_b) ≡ (us, contains_h264_idr annex_b, annex_b)
unfolding frame_message
frame_message-read us annex_b low =
    let flag = if contains_h264_idr annex_b then 1 else 0 in
    let kept : (flag == 1) ≡ contains_h264_idr annex_b =
      elim (Bool-cases (contains_h264_idr annex_b)) [
        | inl has ↦ rw has refl
        | inr lacks ↦ rw lacks refl
      ] in
    parts-read us flag annex_b low ∙ ap (λ (f : Bool). (us, f, annex_b)) kept

-- A packet by its payload and the ticks of its clock since the first one
abbrev pub Tick : Type 0
Tick = Bytes × ℕ

abbrev pub stamped : ℕ → Tick → Packet
stamped first (payload, d) = record { payload = payload; timestamp = (first + d) % 2 ^ 32 }

-- The frames of the packets that have a payload
unfoldable pub frames : (Bytes → Bytes) → List Tick → List (ℕ × Bool × Bytes)
frames decode [] = []
frames decode ((payload, d) ∷ ticks) =
    let rest = frames decode ticks in
    if length payload == 0
    then rest
    else (d * 1000000 / 90000, contains_h264_idr (decode payload), decode payload) ∷ rest

handle_packet-empty :
    (decode : Bytes → Bytes) (first : Option ℕ) (p : Packet)
    → length p.payload == 0 ≡ true
    → handle_packet decode first p ≡ (first, none)
unfolding handle_packet
handle_packet-empty decode first p empty = rw empty refl

handle_packet-full :
    (decode : Bytes → Bytes) (first : ℕ) (p : Packet)
    → length p.payload == 0 ≡ false
    → handle_packet decode (some first) p
      ≡ (some first, some (frame_message (timestamp_us first p.timestamp) (decode p.payload)))
unfolding handle_packet
handle_packet-full decode first p full = rw full refl

handle_packets_step :
    (decode : Bytes → Bytes) (first : Option ℕ) (p : Packet) (ps : List Packet)
    (o : Option ℕ × Option Bytes)
    → handle_packet decode first p ≡ o
    → handle_packets decode first (p ∷ ps) ≡ keep o.1 (handle_packets decode o.0 ps)
unfolding handle_packets
handle_packets_step decode first p ps o h =
    ap (λ (x : Option ℕ × Option Bytes). keep x.1 (handle_packets decode x.0 ps)) h

started :
    (decode : Bytes → Bytes) (first : ℕ) (ticks : List Tick)
    → first < 2 ^ 32
    → All (λ (t : Tick). t.1 < 2 ^ 32) ticks
    → map read_message (handle_packets decode (some first) (map (stamped first) ticks))
      ≡ frames decode ticks
unfolding handle_packets frames
started decode first [] low all_low = refl
started decode first ((payload, d) ∷ ticks) low (d_low, all_low) =
    let rest = started decode first ticks low all_low in
    let p = stamped first (payload, d) in
    let ps = map (stamped first) ticks in
    elim (Bool-cases (length payload == 0)) [
      | inl empty ↦
          let step =
            handle_packets_step decode (some first) p ps (some first, none)
              (handle_packet-empty decode (some first) p empty) in
          rw (step, empty) rest
      | inr full ↦
          let us : timestamp_us first p.timestamp ≡ d * 1000000 / 90000 =
            timestamp_us_lem first d low d_low in
          let read = frame_message-read (d * 1000000 / 90000) (decode payload) (omega arith) in
          let step =
            handle_packets_step decode (some first) p ps
              (some first, some (frame_message (timestamp_us first p.timestamp) (decode payload)))
              (handle_packet-full decode first p full) in
          rw (step, full, us)
            (ap (λ x. x ∷ map read_message (handle_packets decode (some first) ps)) read
              ∙ ap (◌∷◌ (d * 1000000 / 90000, contains_h264_idr (decode payload), decode payload))
                  rest)
    ]

first_packet :
    (decode : Bytes → Bytes) (p : Packet)
    → length p.payload == 0 ≡ false
    → handle_packet decode none p ≡ handle_packet decode (some p.timestamp) p
unfolding handle_packet
first_packet decode p full = rw full refl

first_packets :
    (decode : Bytes → Bytes) (p : Packet) (ps : List Packet)
    → length p.payload == 0 ≡ false
    → handle_packets decode none (p ∷ ps) ≡ handle_packets decode (some p.timestamp) (p ∷ ps)
first_packets decode p ps full =
    handle_packets_step decode none p ps (handle_packet decode (some p.timestamp) p)
      (first_packet decode p full)
    ∙ sym (
        handle_packets_step decode (some p.timestamp) p ps
          (handle_packet decode (some p.timestamp) p) refl)

-- The packets that the handler gets, the first one with a payload, become messages that say this,
-- in order: of each packet with a payload, the microseconds since the first, whether the frame has
-- an IDR picture, and the frame. The clock of 32 bits may wrap, up to `2 ^ 32` ticks after the
-- first packet.
pub handle_packets-frames :
    (decode : Bytes → Bytes) (first : ℕ) (payload : Bytes) (ticks : List Tick)
    → first < 2 ^ 32
    → length payload == 0 ≡ false
    → All (λ (t : Tick). t.1 < 2 ^ 32) ticks
    → map read_message (handle_packets decode none (map (stamped first) ((payload, 0) ∷ ticks)))
      ≡ frames decode ((payload, 0) ∷ ticks)
handle_packets-frames decode first payload ticks low full all_low =
    let start : (first + 0) % 2 ^ 32 ≡ first = omega arith in
    let same = first_packets decode (stamped first (payload, 0)) (map (stamped first) ticks) full in
    ap (map read_message) (
      same
      ∙ ap (λ (f : ℕ). handle_packets decode (some f) (map (stamped first) ((payload, 0) ∷ ticks)))
          start)
    ∙ started decode first ((payload, 0) ∷ ticks) low (omega arith, all_low)
