-- ===== src/Mdns/Name/Termination.antt =====
-- Parsing a name ends, and reads no byte out of range.
use dockerset.Base.{
  ℕ, zero, suc, ◌+◌, ◌-◌, ◌*◌, ◌%◌, ◌≤◌, ◌<◌, inl, inr, List, [], ◌∷◌, ◌++◌, arith, leb, ltb,
  Bool-cases, Bytes, length, take, drop, Outcome, ok, err, panic, stuck, Returns, index_lt,
  slice_le,
}
use dockerset.Go.Text.{join}
use dockerset.Go.Text.Laws.{length-to_lower}
use dockerset.Mdns.Name.{
  PacketError, finish_name, follow, scan_byte, scan, parse_labels, parse_name, max_name_length,
}

-- A result ends behind `start`, within the packet.
abbrev pub Bounded : Bytes → ℕ → Outcome PacketError (List Bytes × ℕ) → Type 0
Bounded packet start (ok (labels, next)) = (start < next) × (next ≤ length packet)
Bounded packet start (err e) = Unit
Bounded packet start panic = ⊥
Bounded packet start stuck = ⊥

Bounded-Returns :
    (packet : Bytes) (start : ℕ) (r : Outcome PacketError (List Bytes × ℕ))
    → Bounded packet start r
    → Returns r
Bounded-Returns packet start (ok (labels, next)) h = tt
Bounded-Returns packet start (err e) h = tt
Bounded-Returns packet start panic h = h
Bounded-Returns packet start stuck h = h

Bounded-earlier :
    (packet : Bytes) (i j : ℕ) (r : Outcome PacketError (List Bytes × ℕ))
    → i ≤ j
    → Bounded packet j r
    → Bounded packet i r
Bounded-earlier packet i j (ok (labels, next)) k h = omega arith
Bounded-earlier packet i j (err e) k h = tt
Bounded-earlier packet i j panic k h = h
Bounded-earlier packet i j stuck k h = h

module _ (packet : Bytes) (jump : ℕ → Outcome PacketError (List Bytes × ℕ))
    (jumps : (p : ℕ) → Returns (jump p)) where
  follow-Bounded :
      (i l : ℕ) (labels : List Bytes)
      → i < length packet
      → Bounded packet i (follow jump packet i l labels)
  unfolding follow
  follow-Bounded i l labels h = elim (Bool-cases (leb (length packet) (i + 1))) [
    | inl e ↦ rw e tt
    | inr e ↦
        let (low, read) = index_lt {E = PacketError} packet (i + 1) (ground arith) in
        rw (e, read) (ground (arith, jumps (l % 64 * 256 + low)))
  ]

  -- One round, where the rest of the loop keeps the bound.
  scan_byte-Bounded :
      (next : ℕ → List Bytes → Outcome PacketError (List Bytes × ℕ)) (i l : ℕ) (labels : List Bytes)
      → i < length packet
      → ((ls : List Bytes)
          → i + 1 + l ≤ length packet
          → Bounded packet (i + 1 + l) (next (i + 1 + l) ls))
      → Bounded packet i (scan_byte jump packet next i l labels)
  unfolding scan_byte
  scan_byte-Bounded next i l labels h rest = elim (Bool-cases (ltb (length packet) (i + 1 + l))) [
    | inl e ↦ rw e (ground (arith, follow-Bounded i l labels))
    | inr e ↦
        rw (e, slice_le {E = PacketError} packet (i + 1) (i + 1 + l) (omega arith) (ground arith))
          (ground (
            arith,
            follow-Bounded i l labels,
            Bounded-earlier packet i (i + 1 + l) _ (omega arith) (
                rest (labels ++ (take (i + 1 + l - (i + 1)) (drop (i + 1) packet) ∷ []))
                  (ground arith)),
          ))
  ]

  scan-Bounded :
      (fuel i : ℕ) (labels : List Bytes)
      → i ≤ length packet
      → length packet < fuel + i
      → Bounded packet i (scan jump packet fuel i labels)
  unfolding scan
  scan-Bounded zero i labels k h = absurd (omega arith)
  scan-Bounded (suc fuel) i labels k h = elim (Bool-cases (leb (length packet) i)) [
    | inl e ↦ rw e tt
    | inr e ↦
        let (l, read) = index_lt {E = PacketError} packet i (ground arith) in
        rw (e, read)
          (scan_byte-Bounded (scan jump packet fuel) i l labels (ground arith)
            (λ ls below. scan-Bounded fuel (i + 1 + l) ls below (omega arith)))
  ]

-- For every number of pointers left, packet and offset, the labels are read or an error is returned:
-- no index is out of range, the loop's fuel suffices, and a result ends behind `start` in the packet.
pub parse_labels-Bounded :
    (left : ℕ) (packet : Bytes) (start : ℕ) → Bounded packet start (parse_labels left packet start)
unfolding parse_labels
parse_labels-Bounded zero packet start = tt
parse_labels-Bounded (suc left) packet start = elim (Bool-cases (leb (length packet) start)) [
  | inl e ↦ rw e tt
  | inr e ↦ rw e (
      scan-Bounded packet (parse_labels left packet)
        (λ p. Bounded-Returns packet p _ (parse_labels-Bounded left packet p)) (length packet + 1)
        start [] (ground arith) (omega arith))
]

-- What the result of `parseName` promises.
abbrev pub NameBounded : Bytes → ℕ → Outcome PacketError (Bytes × ℕ) → Type 0
NameBounded packet off (ok (name, next)) =
    (length name ≤ max_name_length) × (off < next) × (next ≤ length packet)
NameBounded packet off (err e) = Unit
NameBounded packet off panic = ⊥
NameBounded packet off stuck = ⊥

finish-NameBounded :
    (packet : Bytes) (off : ℕ) (r : Outcome PacketError (List Bytes × ℕ))
    → Bounded packet off r
    → NameBounded packet off (finish_name r)
unfolding finish_name
finish-NameBounded packet off (ok (labels, next)) h =
    ground (arith, length-to_lower (join labels b'.'))
finish-NameBounded packet off (err e) h = tt
finish-NameBounded packet off panic h = h
finish-NameBounded packet off stuck h = h

pub parse_name-NameBounded :
    (packet : Bytes) (off : ℕ) → NameBounded packet off (parse_name packet off)
unfolding parse_name
parse_name-NameBounded packet off =
    finish-NameBounded packet off _ (parse_labels-Bounded 11 packet off)
