-- ===== src/Camera/Sdp.antt =====
-- `fixCrealitySDP` of creality-discovery/camera.go. The parser and the printer of package sdp are
-- arguments, and so is what it keeps of a description beside its first media.
pub mod Laws
use dockerset.Base.{
  ℕ, Bool, true, false, ◌&&◌, ◌||◌, List, [], ◌∷◌, Option, none, some, Bytes, codes, length, ltb,
  ◌===◌, if◌then◌else◌, ◌==◌,
}
use dockerset.Go.Text.{has_prefix, contains}

pub record Attribute : Type 0 where
  pub key : Bytes
  pub value : Bytes

pub record MediaDescription (Other : Type 0) : Type 0 where
  pub formats : List Bytes
  pub attributes : List Attribute
  pub other : Other

-- The attribute is one of the format `skip`, or of Google's.
unfoldable pub is_skipped : Bytes → Attribute → Bool
unfolding ◌===◌ has_prefix contains
is_skipped skip attr =
    (attr.key === codes "fmtp" || attr.key === codes "rtpmap")
    && (has_prefix attr.value skip || contains attr.value (codes "x-google"))

-- The loop over the attributes
unfoldable pub kept_attributes : Bytes → List Attribute → List Attribute
unfolding is_skipped
kept_attributes skip [] = []
kept_attributes skip (attr ∷ attrs) =
    let rest = kept_attributes skip attrs in if is_skipped skip attr then rest else attr ∷ rest

unfoldable pub fix_media : {Other : Type 0} → MediaDescription Other → MediaDescription Other
unfolding kept_attributes
fix_media md = elim md.formats [
  | [] ↦ md
  | skip ∷ formats ↦
      if length formats == 0
      then md
      else record md { formats = formats; attributes = kept_attributes skip md.attributes }
]

module _ {Other Session : Type 0} where
  -- `unmarshal`, `marshal`, and the media of a description
  unfoldable pub fix_creality_sdp :
      (Bytes → Option (List (MediaDescription Other) × Session))
      → (List (MediaDescription Other) × Session → Option Bytes)
      → Bytes
      → Option Bytes
  unfolding fix_media
  fix_creality_sdp unmarshal marshal value = elim (unmarshal value) [
    | none ↦ none
    | some ([], session) ↦ some value
    | some (md ∷ mds, session) ↦ marshal (fix_media md ∷ mds, session)
  ]
