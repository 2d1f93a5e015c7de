-- ===== src/Geo/Socks.antt =====
-- The tunnel through an upstream proxy by SOCKS5: `dialSOCKS5`
-- (geo-sni-proxy/internal/proxy/proxy.go). A connection that is open is the list of bytes that the
-- proxy will send on it; what was written is collected.
pub mod Laws
use dockerset.Base.{
  ℕ, zero, suc, ◌+◌, ◌/◌, ◌%◌, ◌^◌, Bool, true, false, not, ◌&&◌, ◌||◌, List, [], ◌∷◌, ◌++◌, Option,
  none, some, leb, ltb, ◌==◌, ◌===◌, if◌then◌else◌, Bytes, length, take, drop, codes, Outcome, ok,
  err, ◌>>=◌, index,
}
use dockerset.Go.Text.{contains}

pub data DialError : Type 0 where
  connect_failed reply_unread address_unread line_unread proxy_refused : DialError
  unsupported_scheme : DialError

-- A tunnel: what was written to the proxy, and the bytes that are still to be read from it.
pub record Tunnel : Type 0 where
  pub written : Bytes
  pub unread : Bytes

-- io.ReadFull
abbrev pub read_full : ℕ → Bytes → DialError → Outcome DialError (Bytes × Bytes)
read_full n stream e = if ltb (length stream) n then err e else ok (take n stream, drop n stream)

abbrev pub greeting : Bytes
greeting = 0x05 ∷ 0x01 ∷ 0x00 ∷ []

-- `byte(len(hostb))` and `uint16(port)` keep the low 8 and 16 bits.
unfoldable pub connect_request : Bytes → ℕ → Bytes
connect_request host port =
    0x05
    ∷ 0x01
    ∷ 0x00
    ∷ 0x03
    ∷ length host % 256
    ∷ (host ++ (port % 2 ^ 16 / 256 ∷ port % 256 ∷ []))

-- `addrLen` by the kind in `hdr[3]`, and what is left of the stream
unfoldable pub address_length : ℕ → Bytes → Outcome DialError (ℕ × Bytes)
unfolding index
address_length kind rest =
    if kind == 0x01
    then ok (4, rest)
    else if kind == 0x03
    then (do (lb, later) ← read_full 1 rest address_unread; n ← index lb 0; ok (n, later))
    else if kind == 0x04
    then ok (16, rest)
    else ok (0, rest)

-- `stream` is what the proxy sends; `none` is a failed dial.
unfoldable pub dial_socks5 : Option Bytes → Bytes → ℕ → Outcome DialError Tunnel
unfolding address_length connect_request index
dial_socks5 none host port = err connect_failed
dial_socks5 (some stream) host port = do
  (rep, after_rep) ← read_full 2 stream reply_unread
  (hdr, after_hdr) ← read_full 4 after_rep reply_unread
  kind ← index hdr 3
  (addr_len, rest) ← address_length kind after_hdr
  let tunnel = λ (left : Bytes).
      ok (record { written = greeting ++ connect_request host port; unread = left })
  if ltb 0 addr_len
      then (do (tmp, later) ← read_full (addr_len + 2) rest address_unread; tunnel later)
      else tunnel rest
