-- ===== src/Mdns/Name/RoundTrip.antt =====
-- A name that `encodeName` wrote is read back by `parseName`, wherever it stands in a packet.
use dockerset.Base.{
  ℕ, zero, suc, ◌+◌, ◌%◌, ◌≤◌, ◌<◌, ◌≡◌, ◌≢◌, refl, ap, sym, ◌∙◌, List, [], ◌∷◌, ◌++◌, arith, Bytes,
  length, All, append_assoc, append-nil, length-append, Outcome, ok, index, index-append, slice,
  slice-append, bind-eq-ok, ok-injective, leb, false,
}
use dockerset.Go.Text.{split, join, to_lower}
use dockerset.Go.Text.Laws.{join-split, split-ne-nil}
use dockerset.Mdns.Name.{
  PacketError, scan, encode_parts, encode_name, parse_name, parse_labels, finish_name,
}

abbrev pub IsLabel : Bytes → Type 0
IsLabel p = (0 < length p) × (length p ≤ 63)

-- The bytes of the labels, each behind its length.
abbrev pub wire : List Bytes → Bytes
wire [] = []
wire (p ∷ ps) = length p ∷ (p ++ wire ps)

encode_parts-wire :
    (ps : List Bytes) (out : Bytes) → All IsLabel ps → encode_parts ps out ≡ ok (out ++ wire ps)
unfolding encode_parts
encode_parts-wire [] out h = rw append-nil
encode_parts-wire (p ∷ ps) out h = ground (
  arith,
  encode_parts-wire ps (out ++ (length p % 256 ∷ p)) h.1,
  append_assoc out (length p ∷ p) (wire ps),
)

encode_parts-inv :
    (ps : List Bytes) (out enc : Bytes) → encode_parts ps out ≡ ok enc → All IsLabel ps
unfolding encode_parts
encode_parts-inv [] out enc h = tt
encode_parts-inv (p ∷ ps) out enc h =
    ground (arith, encode_parts-inv ps (out ++ (length p % 256 ∷ p)) enc)

module _ (jump : ℕ → Outcome PacketError (List Bytes × ℕ)) where
  scan-label :
      (packet pre p rest : Bytes) (fuel i : ℕ) (labels : List Bytes)
      → packet ≡ pre ++ (length p ∷ (p ++ rest))
      → i ≡ length pre
      → IsLabel p
      → scan jump packet (suc fuel) i labels
        ≡ scan jump packet fuel (i + 1 + length p) (labels ++ (p ∷ []))
  unfolding scan index
  scan-label packet pre p rest fuel i labels e at h =
      let size : length packet ≡ length pre + suc (length p + length rest) =
        omega
          (arith, ap length e, length-append pre (length p ∷ (p ++ rest)), length-append p rest) in
      let read : index {E = PacketError} packet i ≡ ok (length p) =
        rw e (index-append pre (length p ∷ (p ++ rest)) 0 i (omega arith)) in
      let regroup : packet ≡ (pre ++ (length p ∷ [])) ++ (p ++ rest) =
        e ∙ sym (append_assoc pre (length p ∷ []) (p ++ rest)) in
      let before : length (pre ++ (length p ∷ [])) ≡ i + 1 =
        omega (arith, length-append pre (length p ∷ [])) in
      let label : slice {E = PacketError} packet (i + 1) (i + 1 + length p) ≡ ok p = rw regroup (
        slice-append (pre ++ (length p ∷ [])) p rest (i + 1) (i + 1 + length p) (omega arith)
          (omega arith)) in
      ground arith

  scan-end :
      (packet pre rest : Bytes) (fuel i : ℕ) (labels : List Bytes)
      → packet ≡ pre ++ (0 ∷ rest)
      → i ≡ length pre
      → scan jump packet (suc fuel) i labels ≡ ok (labels, i + 1)
  unfolding scan index
  scan-end packet pre rest fuel i labels e at =
      let size : length packet ≡ length pre + suc (length rest) =
        omega (arith, ap length e, length-append pre (0 ∷ rest)) in
      let read : index {E = PacketError} packet i ≡ ok 0 =
        rw e (index-append pre (0 ∷ rest) 0 i (omega arith)) in
      ground arith

  scan-wire :
      (ps : List Bytes) (packet pre rest : Bytes) (fuel i : ℕ) (labels : List Bytes)
      → packet ≡ pre ++ (wire ps ++ (0 ∷ rest))
      → i ≡ length pre
      → All IsLabel ps
      → length ps < fuel
      → scan jump packet fuel i labels ≡ ok (labels ++ ps, i + length (wire ps) + 1)
  scan-wire [] packet pre rest zero i labels e at h f = absurd (omega arith)
  scan-wire [] packet pre rest (suc fuel) i labels e at h f =
      scan-end packet pre rest fuel i labels e at ∙ ground (arith, append-nil labels)
  scan-wire (p ∷ ps) packet pre rest zero i labels e at h f = absurd (omega arith)
  scan-wire (p ∷ ps) packet pre rest (suc fuel) i labels e at h f =
      let e' : packet ≡ pre ++ (length p ∷ (p ++ (wire ps ++ (0 ∷ rest)))) =
        e ∙ ap (λ (t : Bytes). pre ++ (length p ∷ t)) (append_assoc p (wire ps) (0 ∷ rest)) in
      let deeper : packet ≡ (pre ++ (length p ∷ p)) ++ (wire ps ++ (0 ∷ rest)) =
        e' ∙ sym (append_assoc pre (length p ∷ p) (wire ps ++ (0 ∷ rest))) in
      scan-label packet pre p (wire ps ++ (0 ∷ rest)) fuel i labels e' at h.0
      ∙ scan-wire ps packet (pre ++ (length p ∷ p)) rest fuel (i + 1 + length p)
          (labels ++ (p ∷ [])) deeper (omega (arith, length-append pre (length p ∷ p))) h.1
          (omega arith)
      ∙ ground (arith, append_assoc labels (p ∷ []) ps, length-append p (wire ps))

length-join : (ps : List Bytes) (sep : ℕ) → ps ≢ [] → length (join ps sep) + 1 ≡ length (wire ps)
unfolding join
length-join [] sep h = absurd (h refl)
length-join (p ∷ []) sep h = omega (arith, length-append p [])
length-join (p ∷ q ∷ ps) sep h = omega (
  arith,
  length-append p (sep ∷ join (q ∷ ps) sep),
  length-append p (wire (q ∷ ps)),
  length-join (q ∷ ps) sep (λ e. cc),
)

length-wire : (ps : List Bytes) → length ps ≤ length (wire ps)
length-wire [] = omega arith
length-wire (p ∷ ps) = omega (arith, length-append p (wire ps), length-wire ps)

-- What `encodeName` accepts has labels of 1 to 63 bytes, and is written label by label.
pub encode_name-wire :
    (name enc : Bytes)
    → encode_name name ≡ ok enc
    → All IsLabel (split name b'.')
      × (enc ≡ wire (split name b'.') ++ (0 ∷ []))
      × (length name ≤ 254)
      × (length enc ≡ length name + 2)
unfolding encode_name
encode_name-wire name enc h =
    let (out, parts, fits) = bind-eq-ok (encode_parts (split name b'.') []) _ h in
    let labels = encode_parts-inv (split name b'.') [] out parts in
    let out-eq : out ≡ wire (split name b'.') =
      ok-injective (sym parts ∙ encode_parts-wire (split name b'.') [] labels) in
    let size = length-join (split name b'.') b'.' (split-ne-nil name b'.') in
    let name-eq = ap length (join-split name b'.') in
    (
      labels,
      ground (arith),
      ground (arith, ap length out-eq, length-append out (0 ∷ [])),
      ground (arith, ap length out-eq, length-append out (0 ∷ [])),
    )

parse_labels-wire :
    (ps : List Bytes) (packet pre rest : Bytes) (left : ℕ)
    → packet ≡ pre ++ (wire ps ++ (0 ∷ rest))
    → All IsLabel ps
    → parse_labels (suc left) packet (length pre) ≡ ok (ps, length pre + length (wire ps) + 1)
unfolding parse_labels
parse_labels-wire ps packet pre rest left e h =
    let size : length packet ≡ length pre + (length (wire ps) + suc (length rest)) = omega (
      arith,
      ap length e,
      length-append pre (wire ps ++ (0 ∷ rest)),
      length-append (wire ps) (0 ∷ rest),
    ) in
    let inside : leb (length packet) (length pre) ≡ false = ground arith in
    rw inside (
      scan-wire (parse_labels left packet) ps packet pre rest (length packet + 1) (length pre) [] e
        refl h (omega (arith, length-wire ps)))

finish_name-le :
    (labels : List Bytes) (next : ℕ)
    → length (join labels b'.') ≤ 254
    → finish_name (ok (labels, next)) ≡ ok (to_lower (join labels b'.'), next)
unfolding finish_name
finish_name-le labels next h = ground arith

-- A name that `encodeName` accepts is read back in lower case, wherever its bytes stand in a packet,
-- and the offset moves past those bytes.
pub parse_name-encode_name :
    (name enc pre rest : Bytes)
    → encode_name name ≡ ok enc
    → parse_name (pre ++ (enc ++ rest)) (length pre) ≡ ok (to_lower name, length pre + length enc)
unfolding parse_name
parse_name-encode_name name enc pre rest h =
    let (labels, written, short, size) = encode_name-wire name enc h in
    let ps = split name b'.' in
    let whole : join ps b'.' ≡ name = join-split name b'.' in
    let packet-eq : pre ++ (enc ++ rest) ≡ pre ++ (wire ps ++ (0 ∷ rest)) =
      ap (λ (t : Bytes). pre ++ (t ++ rest)) written
      ∙ ap (λ (t : Bytes). pre ++ t) (append_assoc (wire ps) (0 ∷ []) rest) in
    let wired : length pre + length (wire ps) + 1 ≡ length pre + length enc =
      omega (arith, ap length written, length-append (wire ps) (0 ∷ [])) in
    ap finish_name (parse_labels-wire ps _ pre rest 10 packet-eq labels)
    ∙ finish_name-le ps _ (omega (arith, ap length whole))
    ∙ rw (whole, wired)
