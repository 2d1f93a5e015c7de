-- ===== src/Go/Net/Laws.antt =====
-- Lengths of the addresses that `To4` and `To16` return.
use dockerset.Base.{
  ◌≡◌, ap, sym, ◌∙◌, inl, inr, arith, ◌==◌, ==_iff, ◌===◌, Bool-cases, Bytes, length, length-append,
  take, length-drop, Option, none, some,
}
use dockerset.Go.Net.{to4, to16, v4_in_v6}

some-injective : {a b : Bytes} → ◌≡◌ {A = Option Bytes} (some a) (some b) → a ≡ b
some-injective h = cc

pub length-to4 : (ip v4 : Bytes) → to4 ip ≡ some v4 → length v4 ≡ 4
unfolding to4
length-to4 ip v4 h = elim (Bool-cases (length ip == 4)) [
  | inl e ↦ ap length (sym (some-injective (rw e at h))) ∙ (==_iff (length ip) 4).0 e
  | inr e ↦ elim (Bool-cases (length ip == 16)) [
    | inl e16 ↦ elim (Bool-cases (take 12 ip === v4_in_v6)) [
      | inl m ↦
          ap length (sym (some-injective (rw (e, e16, m) at h)))
          ∙ omega (arith, length-drop 12 ip, (==_iff (length ip) 16).0 e16)
      | inr m ↦ let no : none ≡ some v4 = rw (e, e16, m) at h in cc
    ]
    | inr e16 ↦ let no : none ≡ some v4 = rw (e, e16) at h in cc
  ]
]

pub to4_four : (ip : Bytes) → length ip ≡ 4 → to4 ip ≡ some ip
unfolding to4
to4_four ip h = rw ((==_iff (length ip) 4).1 h)

pub length-to16 : (ip v6 : Bytes) → to16 ip ≡ some v6 → length v6 ≡ 16
unfolding to16
length-to16 ip v6 h = elim (Bool-cases (length ip == 4)) [
  | inl e ↦
      ap length (sym (some-injective (rw e at h)))
      ∙ omega (arith, length-append v4_in_v6 ip, (==_iff (length ip) 4).0 e)
  | inr e ↦ elim (Bool-cases (length ip == 16)) [
    | inl e16 ↦ ap length (sym (some-injective (rw (e, e16) at h))) ∙ (==_iff (length ip) 16).0 e16
    | inr e16 ↦ let no : none ≡ some v6 = rw (e, e16) at h in cc
  ]
]

pub to16_sixteen : (ip : Bytes) → length ip ≡ 16 → to16 ip ≡ some ip
unfolding to16
to16_sixteen ip h = rw h
