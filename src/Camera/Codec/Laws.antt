-- ===== src/Camera/Codec/Laws.antt =====
-- The codec is the one that the parameters name.
use dockerset.Base.{
  ◌+◌, ◌≡◌, refl, true, false, [], ◌∷◌, ◌++◌, append_assoc, some, Bytes, codes, length, drop,
  drop-append, length-append, ◌==◌, arith, All,
}
use dockerset.Go.Text.{to_lower, index_of}
use dockerset.Camera.Codec.{
  to_upper, codec_key, is_separator, until_separator, codec_of_value, codec_string_from_fmtp,
}

-- Nothing, or text behind a separator
abbrev pub IsEnd : Bytes → Type 0
IsEnd [] = Unit
IsEnd (c ∷ cs) = is_separator c ≡ true

until_separator-append :
    (value rest : Bytes)
    → All (λ c. is_separator c ≡ false) value
    → IsEnd rest
    → until_separator (value ++ rest) ≡ value
unfolding until_separator
until_separator-append [] [] plain end = refl
until_separator-append [] (c ∷ rest) plain end = rw end refl
until_separator-append (c ∷ value) rest (no_sep, plain) end =
    rw (no_sep, until_separator-append value rest plain end) refl

-- Where the first `profile-level-id=` of the parameters, in letters of either case, has six characters
-- behind it up to a separator or the end, the codec is these, in upper case, behind `avc1.`.
pub codec_string_from_fmtp_lem :
    (before name value rest : Bytes)
    → index_of (to_lower (before ++ (name ++ (value ++ rest)))) codec_key ≡ some (length before)
    → length name ≡ length codec_key
    → length value ≡ 6
    → All (λ c. is_separator c ≡ false) value
    → IsEnd rest
    → codec_string_from_fmtp (before ++ (name ++ (value ++ rest))) ≡ codes "avc1." ++ to_upper value
unfolding codec_string_from_fmtp codec_of_value
codec_string_from_fmtp_lem before name value rest first named six plain end =
    let whole = length-append before name in
    let left : drop (length before + length codec_key) (before ++ (name ++ (value ++ rest)))
        ≡ value ++ rest =
      rw⁻¹ (append_assoc before name (value ++ rest)) (
        drop-append (before ++ name) (value ++ rest) (length before + length codec_key)
          (omega (arith, whole, named))) in
    let six_long : length value == 6 ≡ true = rw six refl in
    rw (first, codec_string_from_fmtp)
      (rw (left, codec_of_value)
        (rw (until_separator-append value rest plain end) (rw six_long refl)))
