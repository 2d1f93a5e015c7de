-- ===== src/Camera/Codec.antt =====
-- `codecStringFromFMTP` of creality-discovery/camera.go, on ASCII text.
pub mod Laws
use dockerset.Base.{
  ℕ, ◌+◌, ◌-◌, Bool, true, false, ◌&&◌, ◌||◌, List, [], ◌∷◌, ◌++◌, map, Option, none, some, leb,
  Bytes, codes, length, drop, ◌==◌, if◌then◌else◌,
}
use dockerset.Go.Text.{to_lower, index_of}

unfoldable pub upper : ℕ → ℕ
upper c = if leb b'a' c && leb c b'z' then c - 32 else c

-- `strings.ToUpper`
abbrev pub to_upper : Bytes → Bytes
to_upper = map upper

abbrev pub codec_key : Bytes
codec_key = codes "profile-level-id="

abbrev pub codec_default : Bytes
codec_default = codes "avc1.42E01F"

-- The characters of `"; \t\r\n"`
unfoldable pub is_separator : ℕ → Bool
is_separator c = c == b';' || c == b' ' || c == 9 || c == 13 || c == 10

-- `value[:j]`, where a separator stands at `j` first
unfoldable pub until_separator : Bytes → Bytes
unfolding is_separator
until_separator [] = []
until_separator (c ∷ cs) = let rest = until_separator cs in if is_separator c then [] else c ∷ rest

unfoldable pub codec_of_value : Bytes → Bytes
unfolding until_separator upper
codec_of_value text =
    let value = until_separator text in
    if length value == 6 then codes "avc1." ++ to_upper value else codec_default

unfoldable pub codec_string_from_fmtp : Bytes → Bytes
unfolding codec_of_value index_of
codec_string_from_fmtp fmtp = elim (index_of (to_lower fmtp) codec_key) [
  | none ↦ codec_default
  | some i ↦ codec_of_value (drop (i + length codec_key) fmtp)
]
