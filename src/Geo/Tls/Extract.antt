-- ===== src/Geo/Tls/Extract.antt =====
-- The steps of `parseSNI` through a ClientHello, up to the name.
use dockerset.Base.{
  ℕ, zero, suc, ◌+◌, ◌*◌, ◌/◌, ◌%◌, ◌≤◌, ◌<◌, ◌≡◌, ◌≢◌, ap, sym, ◌∙◌, true, false, ◌&&◌, List, [],
  ◌∷◌, ◌++◌, arith, leb, ltb, ◌==◌, Bytes, length, length-append, append_assoc, All, ok, index,
  uint16,
}
use dockerset.Go.Text.{to_lower}
use dockerset.Geo.Tls.{
  TlsError, ext_loop, extensions, compression, cipher_suites, session_id, handshake, parse_sni,
}
use dockerset.Geo.Tls.Hello.{
  be16, sni_ext, exts_wire, Hello, exts_of, comp_part, cipher_part, session_part, hello_body,
  hello_message, hello_record, IsHello, uint16_at, index_at, ext_loop-sni,
}

-- Extensions of other types are passed over.
ext_loop-before :
    (es : List (ℕ × Bytes)) (fuel : ℕ) (b pre host rest : Bytes) (o end : ℕ)
    → All (λ e. e.0 ≢ 0) es
    → length es < fuel
    → o ≡ length pre
    → b ≡ pre ++ (exts_wire es ++ (sni_ext host ++ rest))
    → o + length (exts_wire es) + 9 + length host ≤ end
    → end ≤ length b
    → ext_loop fuel b o end ≡ ok (to_lower host)
unfolding ext_loop
ext_loop-before [] zero b pre host rest o end others f at e fits inside = absurd (omega arith)
ext_loop-before [] (suc fuel) b pre host rest o end others f at e fits inside =
    ext_loop-sni fuel b pre host rest o end at e (omega arith) inside
ext_loop-before ((typ, body) ∷ es) zero b pre host rest o end others f at e fits inside =
    absurd (omega arith)
ext_loop-before ((typ, body) ∷ es) (suc fuel) b pre host rest o end others f at e fits inside =
    let tail = exts_wire es ++ (sni_ext host ++ rest) in
    let e0 : b ≡ pre ++ (be16 typ ++ (be16 (length body) ++ (body ++ tail))) =
      e
      ∙ ap (λ (t : Bytes). pre ++ (be16 typ ++ (be16 (length body) ++ t)))
          (append_assoc body (exts_wire es) (sni_ext host ++ rest)) in
    let kind : uint16 {E = TlsError} b o ≡ ok typ =
      uint16_at b pre (be16 (length body) ++ (body ++ tail)) o at typ e0 in
    let pre1 = pre ++ be16 typ in
    let e1 : b ≡ pre1 ++ (be16 (length body) ++ (body ++ tail)) =
      e0 ∙ sym (append_assoc pre (be16 typ) _) in
    let at1 : o + 2 ≡ length pre1 = omega (arith, length-append pre (be16 typ)) in
    let len : uint16 {E = TlsError} b (o + 2) ≡ ok (length body) =
      uint16_at b pre1 (body ++ tail) (o + 2) at1 (length body) e1 in
    let pre2 = pre1 ++ (be16 (length body) ++ body) in
    let e2 : b ≡ pre2 ++ tail = e1 ∙ sym (append_assoc pre1 (be16 (length body) ++ body) tail) in
    let at2 : o + 4 + length body ≡ length pre2 =
      omega (arith, at1, length-append pre1 (be16 (length body) ++ body)) in
    let size : length (exts_wire ((typ, body) ∷ es)) ≡ 4 + length body + length (exts_wire es) =
      omega (arith, length-append body (exts_wire es)) in
    let later =
      ext_loop-before es fuel b pre2 host rest (o + 4 + length body) end others.1 (omega arith) at2
        e2 (omega (arith, size)) inside in
    let go : (leb (o + 4) end && leb end (length b)) ≡ true = ground (arith, size) in
    let skip : (typ == 0) ≡ false = ground (arith, others.0) in rw (go, kind, len) (rw skip later)

length-exts_wire : (es : List (ℕ × Bytes)) → length es ≤ length (exts_wire es)
length-exts_wire [] = omega arith
length-exts_wire ((typ, body) ∷ es) =
    omega (arith, length-append body (exts_wire es), length-exts_wire es)

length-sni_ext : (host : Bytes) → length (sni_ext host) ≡ 9 + length host
length-sni_ext host = omega arith

module _ (h : Hello) (valid : IsHello h) (b pre : Bytes) (o : ℕ) (at : o ≡ length pre) where
  extensions-hello :
      b ≡ pre ++ (be16 (length (exts_of h)) ++ exts_of h) → extensions b o ≡ ok (to_lower h.host)
  unfolding extensions
  extensions-hello e =
      let n = length (exts_of h) in
      let len : uint16 {E = TlsError} b o ≡ ok n = uint16_at b pre (exts_of h) o at n e in
      let pre1 = pre ++ be16 n in
      let e1 : b ≡ pre1 ++ exts_of h = e ∙ sym (append_assoc pre (be16 n) (exts_of h)) in
      let at1 : o + 2 ≡ length pre1 = omega (arith, length-append pre (be16 n)) in
      let size : length b ≡ o + 2 + n =
        omega (arith, at1, ap length e1, length-append pre1 (exts_of h)) in
      let parts : n ≡ length (exts_wire h.before) + (9 + length h.host + length h.after) = omega (
        arith,
        length-append (exts_wire h.before) (sni_ext h.host ++ h.after),
        length-append (sni_ext h.host) h.after,
      ) in
      let inside : ltb (length b) (o + 2) ≡ false = ground arith in
      rw (inside, len)
        (ext_loop-before h.before (length b + 1) b pre1 h.host h.after (o + 2) (o + 2 + n)
          valid.others (omega (arith, length-exts_wire h.before)) at1 e1 (omega arith)
          (omega arith))

compression-hello :
    (h : Hello)
    → IsHello h
    → (b pre : Bytes) (o : ℕ) → o ≡ length pre
    → b ≡ pre ++ comp_part h
    → compression b o ≡ ok (to_lower h.host)
unfolding compression
compression-hello h valid b pre o at e =
    let n = length h.compressions in
    let rest = be16 (length (exts_of h)) ++ exts_of h in
    let len : index {E = TlsError} b o ≡ ok n = index_at b pre (h.compressions ++ rest) o at n e in
    let pre1 = pre ++ (n ∷ h.compressions) in
    let e1 : b ≡ pre1 ++ rest = e ∙ sym (append_assoc pre (n ∷ h.compressions) rest) in
    let inside : ltb (length b) (o + 1) ≡ false =
      ground (arith, ap length e, length-append pre (comp_part h)) in
    rw (inside, len)
      (extensions-hello h valid b pre1 (o + 1 + n)
        (omega (arith, length-append pre (n ∷ h.compressions))) e1)

cipher_suites-hello :
    (h : Hello)
    → IsHello h
    → (b pre : Bytes) (o : ℕ) → o ≡ length pre
    → b ≡ pre ++ cipher_part h
    → cipher_suites b o ≡ ok (to_lower h.host)
unfolding cipher_suites
cipher_suites-hello h valid b pre o at e =
    let n = length h.ciphers in
    let len : uint16 {E = TlsError} b o ≡ ok n =
      uint16_at b pre (h.ciphers ++ comp_part h) o at n e in
    let pre1 = pre ++ (be16 n ++ h.ciphers) in
    let e1 : b ≡ pre1 ++ comp_part h =
      e ∙ sym (append_assoc pre (be16 n ++ h.ciphers) (comp_part h)) in
    let inside : ltb (length b) (o + 2) ≡ false =
      ground (arith, ap length e, length-append pre (cipher_part h)) in
    rw (inside, len)
      (compression-hello h valid b pre1 (o + 2 + n)
        (omega (arith, length-append pre (be16 n ++ h.ciphers))) e1)

session_id-hello :
    (h : Hello)
    → IsHello h
    → (b pre : Bytes) (o : ℕ) → o ≡ length pre
    → b ≡ pre ++ session_part h
    → session_id b o ≡ ok (to_lower h.host)
unfolding session_id
session_id-hello h valid b pre o at e =
    let n = length h.session in
    let len : index {E = TlsError} b o ≡ ok n =
      index_at b pre (h.session ++ cipher_part h) o at n e in
    let pre1 = pre ++ (n ∷ h.session) in
    let e1 : b ≡ pre1 ++ cipher_part h =
      e ∙ sym (append_assoc pre (n ∷ h.session) (cipher_part h)) in
    let inside : leb (length b) o ≡ false =
      ground (arith, ap length e, length-append pre (session_part h)) in
    rw (inside, len)
      (cipher_suites-hello h valid b pre1 (o + 1 + n)
        (omega (arith, length-append pre (n ∷ h.session))) e1)

-- The nine bytes before the version
abbrev hello_head : Hello → Bytes
hello_head h =
    0x16 ∷ 0x03 ∷ 0x01 ∷ be16 (length (hello_message h))
    ++ (0x01
        ∷ length (hello_body h) / 65536
        ∷ length (hello_body h) / 256 % 256
        ∷ length (hello_body h) % 256
        ∷ [])

length-hello_body : (h : Hello) → IsHello h → length (hello_body h) ≡ 34 + length (session_part h)
length-hello_body h valid = omega (
  arith,
  valid.version_size,
  valid.random_size,
  length-append h.version (h.random ++ session_part h),
  length-append h.random (session_part h),
)

handshake-hello : (h : Hello) → IsHello h → handshake (hello_record h) ≡ ok (to_lower h.host)
unfolding handshake index
handshake-hello h valid =
    let pre = hello_head h ++ (h.version ++ h.random) in
    let e : hello_record h ≡ pre ++ session_part h =
      ap (λ (t : Bytes). hello_head h ++ t) (sym (append_assoc h.version h.random (session_part h)))
      ∙ sym (append_assoc (hello_head h) (h.version ++ h.random) (session_part h)) in
    let at : 43 ≡ length pre =
      omega (arith, valid.version_size, valid.random_size, length-append h.version h.random) in
    let inside : ltb (length (hello_record h)) 9 ≡ false = ground arith in
    rw inside (session_id-hello h valid (hello_record h) pre 43 at e)

-- A ClientHello with any version, random bytes, session id, cipher suites and compression methods,
-- with other extensions before and after, gives the host name of its `server_name` in lower case.
pub parse_sni-hello_record :
    (h : Hello) → IsHello h → parse_sni (hello_record h) ≡ ok (to_lower h.host)
unfolding parse_sni uint16 index
parse_sni-hello_record h valid =
    let n = length (hello_message h) in
    let sum : n / 256 * 256 + n % 256 ≡ n = omega arith in
    let long : ltb (length (hello_record h)) 5 ≡ false = ground arith in
    let full : ltb (length (hello_record h)) (5 + (n / 256 * 256 + n % 256)) ≡ false =
      ground arith in
    rw (long, full) (handshake-hello h valid)
