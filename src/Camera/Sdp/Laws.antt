-- ===== src/Camera/Sdp/Laws.antt =====
-- What is left of the first media.
use dockerset.Base.{
  ◌≡◌, refl, inl, inr, true, false, List, [], ◌∷◌, Option, some, Bytes, length, arith, Bool-cases,
  ◌==◌, codes, ◌∙◌, sym, ◌++◌, ===_iff, ◌⊎◌, ◌↔◌,
}
use dockerset.Go.Text.Search.{has_prefix_iff, contains_iff}
use dockerset.Camera.Sdp.{
  Attribute, MediaDescription, is_skipped, kept_attributes, fix_media, fix_creality_sdp,
}

-- The attribute is an `fmtp` or an `rtpmap` whose value begins with the text `skip`, or names x-google.
pub IsDropped : Bytes → Attribute → Type 0
IsDropped skip attr =
    ((attr.key ≡ codes "fmtp") ⊎ (attr.key ≡ codes "rtpmap"))
    × (((rest : Bytes) × (attr.value ≡ skip ++ rest))
        ⊎ ((before : Bytes) × (after : Bytes) × (attr.value
              ≡ before ++ (codes "x-google" ++ after))))

is_skipped_iff :
    (skip : Bytes) (attr : Attribute) → (is_skipped skip attr ≡ true) ↔ IsDropped skip attr
unfolding is_skipped IsDropped
is_skipped_iff skip attr = ground (
  arith,
  ===_iff attr.key (codes "fmtp"),
  ===_iff attr.key (codes "rtpmap"),
  has_prefix_iff attr.value skip,
  contains_iff attr.value (codes "x-google"),
)

-- `kept` is `attrs` without the ones that are dropped, in the same order.
pub data IsKept (skip : Bytes) : List Attribute → List Attribute → Type 0 where
  kept_none : IsKept skip [] []
  kept_one :
      {a : Attribute} {attrs kept : List Attribute}
      → ¬ IsDropped skip a
      → IsKept skip attrs kept
      → IsKept skip (a ∷ attrs) (a ∷ kept)
  dropped_one :
      {a : Attribute} {attrs kept : List Attribute}
      → IsDropped skip a
      → IsKept skip attrs kept
      → IsKept skip (a ∷ attrs) kept

kept_attributes-IsKept :
    (skip : Bytes) (attrs : List Attribute) → IsKept skip attrs (kept_attributes skip attrs)
unfolding kept_attributes
kept_attributes-IsKept skip [] = kept_none
kept_attributes-IsKept skip (a ∷ attrs) = elim (Bool-cases (is_skipped skip a)) [
  | inl gone ↦
      rw gone (dropped_one ((is_skipped_iff skip a).0 gone) (kept_attributes-IsKept skip attrs))
  | inr stays ↦ rw stays (
      kept_one (λ d. let no : true ≡ false = sym ((is_skipped_iff skip a).1 d) ∙ stays in absurd cc)
        (kept_attributes-IsKept skip attrs))
]

fix_media-two :
    {Other : Type 0}
    → (md : MediaDescription Other) (skip format : Bytes) (formats : List Bytes)
    → md.formats ≡ skip ∷ format ∷ formats
    → fix_media md ≡ record {
      formats = format ∷ formats;
      attributes = kept_attributes skip md.attributes;
      other = md.other;
    }
unfolding fix_media
fix_media-two md skip format formats two =
    let long : length (format ∷ formats) == 0 ≡ false = ground arith in
    rw (two, fix_media) (rw long refl)

module _ {Other Session : Type 0} where
  -- Where `fixCrealitySDP` reads a description whose first media has two formats or more, what it
  -- prints has the same rest, and this media without its first format and without the `fmtp` and
  -- `rtpmap` attributes whose value begins with the text of that format or names x-google. All
  -- other attributes are kept, in order.
  pub fix_creality_sdp-IsKept :
      (unmarshal : Bytes → Option (List (MediaDescription Other) × Session))
      (marshal : List (MediaDescription Other) × Session → Option Bytes) (value skip format : Bytes)
      (formats : List Bytes) (md : MediaDescription Other) (mds : List (MediaDescription Other))
      (session : Session)
      → unmarshal value ≡ some (md ∷ mds, session)
      → md.formats ≡ skip ∷ format ∷ formats
      → (kept : List Attribute) × IsKept skip md.attributes kept
        × (fix_creality_sdp unmarshal marshal value
            ≡ marshal (
              record { formats = format ∷ formats; attributes = kept; other = md.other } ∷ mds,
              session,
            ))
  unfolding fix_creality_sdp fix_media
  fix_creality_sdp-IsKept unmarshal marshal value skip format formats md mds session read two = (
    kept_attributes skip md.attributes,
    kept_attributes-IsKept skip md.attributes,
    rw (read, fix_creality_sdp, fix_media-two md skip format formats two) refl,
  )
