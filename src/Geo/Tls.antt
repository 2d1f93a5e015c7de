-- ===== src/Geo/Tls.antt =====
-- `parseSNI` and the reads of `handleTLSConn` (geo-sni-proxy/internal/proxy/proxy.go).
-- `parseSNI` returns "" where it finds no name, so it has no error.
pub mod Fault
pub mod Hello
pub mod Extract
use dockerset.Base.{
  ℕ, zero, suc, ◌+◌, ◌*◌, Bool, true, false, not, ◌&&◌, List, [], ◌∷◌, ◌++◌, Option, none, some,
  leb, ltb, ◌==◌, if◌then◌else◌, Bytes, length, take, drop, Outcome, ok, err, panic, stuck, ◌>>=◌,
  index, slice, uint16,
}
use dockerset.Go.Text.{to_lower}

pub data TlsError : Type 0 where
  header_unread not_handshake body_unread sni_not_found : TlsError

-- The loop over the names of the extension, up to `stop`.
unfoldable pub names_loop : ℕ → Bytes → ℕ → ℕ → Outcome TlsError Bytes
names_loop zero b cur stop = stuck
names_loop (suc fuel) b cur stop =
    if leb (cur + 3) stop
    then (do
      name_type ← index b cur
      name_len ← uint16 b (cur + 1)
      let skip = names_loop fuel b (cur + 3 + name_len) stop
      if name_type == 0
          then (if ltb (length b) (cur + 3 + name_len)
              then ok []
              else do name ← slice b (cur + 3) (cur + 3 + name_len); ok (to_lower name))
          else skip)
    else ok []

-- The extension `server_name`
unfoldable pub server_names : Bytes → ℕ → Outcome TlsError Bytes
unfolding names_loop
server_names b offset = if ltb (length b) (offset + 2) then ok [] else do
  list_len ← uint16 b offset
  if ltb (length b) (offset + 2 + list_len)
      then ok []
      else names_loop (length b + 1) b (offset + 2) (offset + 2 + list_len)

-- The loop over the extensions, up to `end`.
unfoldable pub ext_loop : ℕ → Bytes → ℕ → ℕ → Outcome TlsError Bytes
unfolding server_names
ext_loop zero b offset end = stuck
ext_loop (suc fuel) b offset end =
    if leb (offset + 4) end && leb end (length b)
    then (do
      typ ← uint16 b offset
      l ← uint16 b (offset + 2)
      let skip = ext_loop fuel b (offset + 4 + l) end
      if typ == 0 then server_names b (offset + 4) else skip)
    else ok []

-- A round of either loop moves by 3 bytes at least, so `length b + 1` rounds are enough.
unfoldable pub extensions : Bytes → ℕ → Outcome TlsError Bytes
unfolding ext_loop
extensions b offset =
    if ltb (length b) (offset + 2)
    then ok []
    else do ext_len ← uint16 b offset; ext_loop (length b + 1) b (offset + 2) (offset + 2 + ext_len)

unfoldable pub compression : Bytes → ℕ → Outcome TlsError Bytes
compression b offset =
    if ltb (length b) (offset + 1)
    then ok []
    else do comp_len ← index b offset; extensions b (offset + 1 + comp_len)

unfoldable pub cipher_suites : Bytes → ℕ → Outcome TlsError Bytes
cipher_suites b offset =
    if ltb (length b) (offset + 2)
    then ok []
    else do cipher_suite_len ← uint16 b offset; compression b (offset + 2 + cipher_suite_len)

unfoldable pub session_id : Bytes → ℕ → Outcome TlsError Bytes
session_id b offset =
    if leb (length b) offset
    then ok []
    else do session_id_len ← index b offset; cipher_suites b (offset + 1 + session_id_len)

-- From the handshake type at index 5: its length, the version and the random bytes are passed over.
unfoldable pub handshake : Bytes → Outcome TlsError Bytes
handshake b = do
  kind ← index b 5
  if not (kind == 0x01)
      then ok []
      else if ltb (length b) 9
      then ok []
      else do l2 ← index b 6; l1 ← index b 7; l0 ← index b 8; session_id b 43

unfoldable pub parse_sni : Bytes → Outcome TlsError Bytes
parse_sni b = if ltb (length b) 5 then ok [] else do
  content_type ← index b 0
  if not (content_type == 0x16) then ok [] else do
    handshake_len ← uint16 b 3
    if ltb (length b) (5 + handshake_len) then ok [] else handshake b

-- io.ReadFull: the first `n` bytes of the stream, if it has them.
abbrev pub read_full : ℕ → Bytes → TlsError → Outcome TlsError (Bytes × Bytes)
read_full n stream e = if ltb (length stream) n then err e else ok (take n stream, drop n stream)

-- `handleTLSConn` up to the call of `dialViaProxy`: the server name and the bytes read.
unfoldable pub read_client_hello : Bytes → Outcome TlsError (Bytes × Bytes)
read_client_hello stream = do
  (hdr, rest) ← read_full 5 stream header_unread
  content_type ← index hdr 0
  if not (content_type == 0x16) then err not_handshake else do
    hl ← uint16 hdr 3
    (body, later) ← read_full hl rest body_unread
    server_name ← parse_sni (hdr ++ body)
    if length server_name == 0 then err sni_not_found else ok (server_name, hdr ++ body)
