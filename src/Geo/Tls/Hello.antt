-- ===== src/Geo/Tls/Hello.antt =====
-- `parseSNI` finds the name in a ClientHello, whatever stands in the other fields.
use dockerset.Base.{
  ℕ, suc, ◌+◌, ◌/◌, ◌%◌, ◌≤◌, ◌≡◌, ◌≢◌, ap, sym, ◌∙◌, List, [], ◌∷◌, ◌++◌, arith, Bytes, length,
  length-append, append_assoc, All, ok, index, slice, uint16, index-append, slice-append,
}
use dockerset.Go.Text.{to_lower}
use dockerset.Geo.Tls.{TlsError, server_names, ext_loop}

-- A number as the two bytes of a length or type field
abbrev pub be16 : ℕ → Bytes
be16 n = n / 256 ∷ n % 256 ∷ []

abbrev pub name_entry : Bytes → Bytes
name_entry host = 0 ∷ (be16 (length host) ++ host)

-- The extension `server_name` with one host name
abbrev pub sni_ext : Bytes → Bytes
sni_ext host = be16 0 ++ (be16 (length host + 5) ++ (be16 (length host + 3) ++ name_entry host))

-- Other extensions: type and data
abbrev pub exts_wire : List (ℕ × Bytes) → Bytes
exts_wire [] = []
exts_wire ((typ, body) ∷ es) = be16 typ ++ (be16 (length body) ++ (body ++ exts_wire es))

pub record Hello : Type 0 where
  pub version : Bytes
  pub random : Bytes
  pub session : Bytes
  pub ciphers : Bytes
  pub compressions : Bytes
  pub before : List (ℕ × Bytes)
  pub host : Bytes
  pub after : Bytes

abbrev pub exts_of : Hello → Bytes
exts_of h = exts_wire h.before ++ (sni_ext h.host ++ h.after)

abbrev pub comp_part : Hello → Bytes
comp_part h = length h.compressions ∷ (h.compressions ++ (be16 (length (exts_of h)) ++ exts_of h))

abbrev pub cipher_part : Hello → Bytes
cipher_part h = be16 (length h.ciphers) ++ (h.ciphers ++ comp_part h)

abbrev pub session_part : Hello → Bytes
session_part h = length h.session ∷ (h.session ++ cipher_part h)

-- From the version on
abbrev pub hello_body : Hello → Bytes
hello_body h = h.version ++ (h.random ++ session_part h)

-- The handshake message, its length in three bytes
abbrev pub hello_message : Hello → Bytes
hello_message h =
    0x01
    ∷ length (hello_body h) / 65536
    ∷ length (hello_body h) / 256 % 256
    ∷ length (hello_body h) % 256
    ∷ hello_body h

-- The record that carries it
abbrev pub hello_record : Hello → Bytes
hello_record h = 0x16 ∷ 0x03 ∷ 0x01 ∷ be16 (length (hello_message h)) ++ hello_message h

pub record IsHello (h : Hello) : Type 0 where
  pub version_size : length h.version ≡ 2
  pub random_size : length h.random ≡ 32
  pub others : All (λ e. e.0 ≢ 0) h.before

module _ (b pre rest : Bytes) (o : ℕ) (at : o ≡ length pre) where
  pub uint16_at : (n : ℕ) → b ≡ pre ++ (be16 n ++ rest) → uint16 {E = TlsError} b o ≡ ok n
  unfolding uint16 index
  uint16_at n e =
      let hi : index {E = TlsError} b o ≡ ok (n / 256) =
        rw e (index-append pre (be16 n ++ rest) 0 o (omega arith)) in
      let lo : index {E = TlsError} b (o + 1) ≡ ok (n % 256) =
        rw e (index-append pre (be16 n ++ rest) 1 (o + 1) (omega arith)) in
      rw (hi, lo) (ground arith)

  pub index_at : (n : ℕ) → b ≡ pre ++ (n ∷ rest) → index {E = TlsError} b o ≡ ok n
  unfolding index
  index_at n e = rw e (index-append pre (n ∷ rest) 0 o (omega arith))

server_names-entry :
    (b pre host rest : Bytes) (o : ℕ)
    → o ≡ length pre
    → b ≡ pre ++ (be16 (length host + 3) ++ (name_entry host ++ rest))
    → server_names b o ≡ ok (to_lower host)
unfolding server_names
server_names-entry b pre host rest o at e =
    let list_len : uint16 {E = TlsError} b o ≡ ok (length host + 3) =
      uint16_at b pre (name_entry host ++ rest) o at (length host + 3) e in
    let pre1 = pre ++ be16 (length host + 3) in
    let e1 : b ≡ pre1 ++ (name_entry host ++ rest) =
      e ∙ sym (append_assoc pre (be16 (length host + 3)) _) in
    let size : length b ≡ o + 2 + (3 + length host + length rest) = omega (
      arith,
      ap length e1,
      length-append pre1 (name_entry host ++ rest),
      length-append pre (be16 (length host + 3)),
      length-append (name_entry host) rest,
    ) in
    let at1 : o + 2 ≡ length pre1 = omega (arith, length-append pre (be16 (length host + 3))) in
    let kind : index {E = TlsError} b (o + 2) ≡ ok 0 =
      index_at b pre1 (be16 (length host) ++ host ++ rest) (o + 2) at1 0 e1 in
    let pre2 = pre1 ++ (0 ∷ []) in
    let e2 : b ≡ pre2 ++ (be16 (length host) ++ (host ++ rest)) =
      e1 ∙ sym (append_assoc pre1 (0 ∷ []) (be16 (length host) ++ (host ++ rest))) in
    let at2 : o + 2 + 1 ≡ length pre2 = omega (arith, at1, length-append pre1 (0 ∷ [])) in
    let name_len : uint16 {E = TlsError} b (o + 2 + 1) ≡ ok (length host) =
      uint16_at b pre2 (host ++ rest) (o + 2 + 1) at2 (length host) e2 in
    let pre3 = pre2 ++ be16 (length host) in
    let e3 : b ≡ pre3 ++ (host ++ rest) =
      e2 ∙ sym (append_assoc pre2 (be16 (length host)) (host ++ rest)) in
    let name : slice {E = TlsError} b (o + 2 + 3) (o + 2 + 3 + length host) ≡ ok host = rw e3 (
      slice-append pre3 host rest (o + 2 + 3) (o + 2 + 3 + length host)
        (omega (arith, at2, length-append pre2 (be16 (length host))))
        (omega (arith, at2, length-append pre2 (be16 (length host))))) in
    ground arith

-- At the extension, within the bounds of the block
pub ext_loop-sni :
    (fuel : ℕ) (b pre host rest : Bytes) (o end : ℕ)
    → o ≡ length pre
    → b ≡ pre ++ (sni_ext host ++ rest)
    → o + 9 + length host ≤ end
    → end ≤ length b
    → ext_loop (suc fuel) b o end ≡ ok (to_lower host)
unfolding ext_loop
ext_loop-sni fuel b pre host rest o end at e fits inside =
    let typ : uint16 {E = TlsError} b o ≡ ok 0 =
      uint16_at b pre
        (be16 (length host + 5) ++ (be16 (length host + 3) ++ name_entry host) ++ rest) o at 0 e in
    let pre1 = pre ++ be16 0 in
    let e1 : b
        ≡ pre1
          ++ (be16 (length host + 5) ++ (be16 (length host + 3) ++ (name_entry host ++ rest))) =
      e ∙ sym (append_assoc pre (be16 0) _) in
    let at1 : o + 2 ≡ length pre1 = omega (arith, length-append pre (be16 0)) in
    let len : uint16 {E = TlsError} b (o + 2) ≡ ok (length host + 5) =
      uint16_at b pre1 (be16 (length host + 3) ++ (name_entry host ++ rest)) (o + 2) at1
        (length host + 5) e1 in
    let pre2 = pre1 ++ be16 (length host + 5) in
    let e2 : b ≡ pre2 ++ (be16 (length host + 3) ++ (name_entry host ++ rest)) =
      e1 ∙ sym (append_assoc pre1 (be16 (length host + 5)) _) in
    let found =
      server_names-entry b pre2 host rest (o + 4)
        (omega (arith, at1, length-append pre1 (be16 (length host + 5)))) e2 in
    ground arith
