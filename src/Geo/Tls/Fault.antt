-- ===== src/Geo/Tls/Fault.antt =====
-- Where `parseSNI` faults.
use dockerset.Base.{
  ℕ, zero, suc, ◌+◌, ◌≤◌, ◌<◌, ◌≡◌, refl, sym, ◌∙◌, ◌⊎◌, inl, inr, ◌&&◌, [], ◌∷◌, arith, leb, ltb,
  ◌==◌, Bool-cases, Bytes, length, ok, panic, Returns, index, uint16, index_lt, uint16_lt, slice_le,
  ok-injective,
}
use dockerset.Geo.Tls.{
  TlsError, names_loop, server_names, ext_loop, extensions, compression, cipher_suites, session_id,
  handshake, parse_sni,
}

names_loop-Returns :
    (fuel : ℕ) (b : Bytes) (cur stop : ℕ)
    → stop ≤ length b
    → 0 < fuel
    → length b < fuel + cur
    → Returns (names_loop fuel b cur stop)
unfolding names_loop
names_loop-Returns zero b cur stop h p k = absurd (omega arith)
names_loop-Returns (suc fuel) b cur stop h p k = elim (Bool-cases (leb (cur + 3) stop)) [
  | inr e ↦ rw e tt
  | inl e ↦
      let (t, et) = index_lt {E = TlsError} b cur (ground arith) in
      let (n, en) = uint16_lt {E = TlsError} b (cur + 1) (ground arith) in
      rw (e, et, en)
        (ground (
          arith,
          slice_le {E = TlsError} b (cur + 3) (cur + 3 + n),
          names_loop-Returns fuel b (cur + 3 + n) stop,
        ))
]

server_names-Returns : (b : Bytes) (offset : ℕ) → Returns (server_names b offset)
unfolding server_names
server_names-Returns b offset = elim (Bool-cases (ltb (length b) (offset + 2))) [
  | inl e ↦ rw e tt
  | inr e ↦
      let (n, en) = uint16_lt {E = TlsError} b offset (ground arith) in
      rw (e, en) (ground (arith, names_loop-Returns (length b + 1) b (offset + 2) (offset + 2 + n)))
]

ext_loop-Returns :
    (fuel : ℕ) (b : Bytes) (offset end : ℕ)
    → 0 < fuel
    → length b < fuel + offset
    → Returns (ext_loop fuel b offset end)
unfolding ext_loop
ext_loop-Returns zero b offset end p k = absurd (omega arith)
ext_loop-Returns (suc fuel) b offset end p k =
    elim (Bool-cases (leb (offset + 4) end && leb end (length b))) [
      | inr e ↦ rw e tt
      | inl e ↦
          let (t, et) = uint16_lt {E = TlsError} b offset (ground arith) in
          let (n, en) = uint16_lt {E = TlsError} b (offset + 2) (ground arith) in
          rw (e, et, en)
            (ground (
              arith,
              server_names-Returns b (offset + 4),
              ext_loop-Returns fuel b (offset + 4 + n) end,
            ))
    ]

extensions-Returns : (b : Bytes) (offset : ℕ) → Returns (extensions b offset)
unfolding extensions
extensions-Returns b offset = elim (Bool-cases (ltb (length b) (offset + 2))) [
  | inl e ↦ rw e tt
  | inr e ↦
      let (n, en) = uint16_lt {E = TlsError} b offset (ground arith) in
      rw (e, en)
        (ext_loop-Returns (length b + 1) b (offset + 2) (offset + 2 + n) (omega arith)
          (omega arith))
]

compression-Returns : (b : Bytes) (offset : ℕ) → Returns (compression b offset)
unfolding compression
compression-Returns b offset = elim (Bool-cases (ltb (length b) (offset + 1))) [
  | inl e ↦ rw e tt
  | inr e ↦
      let (n, en) = index_lt {E = TlsError} b offset (ground arith) in
      rw (e, en) (extensions-Returns b (offset + 1 + n))
]

cipher_suites-Returns : (b : Bytes) (offset : ℕ) → Returns (cipher_suites b offset)
unfolding cipher_suites
cipher_suites-Returns b offset = elim (Bool-cases (ltb (length b) (offset + 2))) [
  | inl e ↦ rw e tt
  | inr e ↦
      let (n, en) = uint16_lt {E = TlsError} b offset (ground arith) in
      rw (e, en) (compression-Returns b (offset + 2 + n))
]

session_id-Returns : (b : Bytes) (offset : ℕ) → Returns (session_id b offset)
unfolding session_id
session_id-Returns b offset = elim (Bool-cases (leb (length b) offset)) [
  | inl e ↦ rw e tt
  | inr e ↦
      let (n, en) = index_lt {E = TlsError} b offset (ground arith) in
      rw (e, en) (cipher_suites-Returns b (offset + 1 + n))
]

-- With a sixth byte there is no fault behind the record header.
handshake-Returns : (b : Bytes) → 5 < length b → Returns (handshake b)
unfolding handshake
handshake-Returns b h =
    let (k, ek) = index_lt {E = TlsError} b 5 h in
    elim (Bool-cases (ltb (length b) 9)) [
      | inl e ↦ rw (ek, e) (ground arith)
      | inr e ↦
          let (x, ex) = index_lt {E = TlsError} b 6 (ground arith) in
          let (y, ey) = index_lt {E = TlsError} b 7 (ground arith) in
          let (z, ez) = index_lt {E = TlsError} b 8 (ground arith) in
          rw (ek, e, ex, ey, ez) (ground (arith, session_id-Returns b 43))
    ]

-- A handshake record with no content: five bytes, with the length 0
abbrev pub IsEmptyRecord : Bytes → Type 0
IsEmptyRecord b =
    (length b ≡ 5) × (index {E = TlsError} b 0 ≡ ok 0x16) × (uint16 {E = TlsError} b 3 ≡ ok 0)

handshake_five : (b : Bytes) → length b ≡ 5 → handshake b ≡ panic
unfolding handshake index
handshake_five (a ∷ b ∷ c ∷ d ∷ e ∷ []) h = refl
handshake_five [] h = absurd (omega arith)
handshake_five (a ∷ []) h = absurd (omega arith)
handshake_five (a ∷ b ∷ []) h = absurd (omega arith)
handshake_five (a ∷ b ∷ c ∷ []) h = absurd (omega arith)
handshake_five (a ∷ b ∷ c ∷ d ∷ []) h = absurd (omega arith)
handshake_five (a ∷ b ∷ c ∷ d ∷ e ∷ f ∷ r) h = absurd (omega arith)

-- `parseSNI` panics at a handshake record with no content, and at no other input: there it returns.
pub parse_sni_fault :
    (b : Bytes)
    → (IsEmptyRecord b × (parse_sni b ≡ panic)) ⊎ (¬ IsEmptyRecord b × Returns (parse_sni b))
unfolding parse_sni
parse_sni_fault b = elim (Bool-cases (ltb (length b) 5)) [
  | inl short ↦ inr (λ h. ground (arith, h.0), rw short tt)
  | inr long ↦
      let (t, et) = index_lt {E = TlsError} b 0 (ground arith) in
      let (n, en) = uint16_lt {E = TlsError} b 3 (ground arith) in
      elim (Bool-cases (t == 0x16)) [
        | inr other ↦
            inr (λ h. ground (arith, ok-injective (sym et ∙ h.1)), rw (long, et, other) tt)
        | inl tls ↦ elim (Bool-cases (ltb (length b) (5 + n))) [
          | inl cut ↦ inr (
            λ h. ground (arith, h.0, ok-injective (sym en ∙ h.2)),
            rw (long, et, tls, en, cut) tt,
          )
          | inr full ↦ elim (Bool-cases (length b == 5)) [
            | inl five ↦ inl (
              (ground arith, et ∙ ground arith, en ∙ ground arith),
              rw (long, et, tls, en, full) (handshake_five b (ground arith)),
            )
            | inr more ↦ inr (
              λ h. ground (arith, h.0),
              rw (long, et, tls, en, full) (handshake-Returns b (ground arith)),
            )
          ]
        ]
      ]
]
