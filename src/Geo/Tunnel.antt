-- ===== src/Geo/Tunnel.antt =====
-- `dialHTTPProxy` and `dialViaProxy` of geo-sni-proxy/internal/proxy/proxy.go. A connection that is open
-- is the list of bytes that the proxy sends on it, whether it is by TLS or not; `ahead` is how far the
-- reader of the answer has read beyond it.
pub mod Laws
use dockerset.Base.{
  ℕ, Bool, true, false, List, [], ◌∷◌, ◌++◌, Option, none, some, ◌===◌, ◌||◌, if◌then◌else◌, Bytes,
  drop, codes, Outcome, ok, err,
}
use dockerset.Go.Text.{contains}
use dockerset.Geo.Http.{Stream, concat, stream_of}
use dockerset.Geo.Socks.{
  DialError, connect_failed, line_unread, proxy_refused, unsupported_scheme, Tunnel, dial_socks5,
}

-- The end of a line
abbrev pub crlf : Bytes
crlf = 13 ∷ 10 ∷ []

-- `target` is `host:port`.
abbrev pub connect_text : Bytes → Bytes
connect_text target =
    codes "CONNECT "
    ++ target
    ++ codes " HTTP/1.1"
    ++ crlf
    ++ codes "Host: "
    ++ target
    ++ crlf
    ++ codes "Proxy-Connection: Keep-Alive"
    ++ crlf
    ++ crlf

-- The loop that drains the headers: what stands behind the empty line, if there is one
unfoldable pub drain_headers : List Bytes → Bytes → Option Bytes
unfolding ◌===◌
drain_headers [] tail = none
drain_headers (l ∷ ls) tail =
    let rest = drain_headers ls tail in if l === crlf then some (concat ls ++ tail) else rest

-- The connection is returned without the reader, which keeps what it has read ahead.
abbrev pub tunnel_after : Bytes → ℕ → Option Bytes → Outcome DialError Tunnel
tunnel_after target ahead none = err line_unread
tunnel_after target ahead (some left) =
    ok (record { written = connect_text target; unread = drop ahead left })

abbrev pub after_status : Bytes → ℕ → List Bytes → Bytes → Outcome DialError Tunnel
after_status target ahead [] tail = err line_unread
after_status target ahead (status ∷ ls) tail =
    if contains status (codes "200")
    then tunnel_after target ahead (drain_headers ls tail)
    else err proxy_refused

unfoldable pub dial_http_proxy : Option Bytes → ℕ → Bytes → Outcome DialError Tunnel
unfolding contains drain_headers stream_of
dial_http_proxy none ahead target = err connect_failed
dial_http_proxy (some answer) ahead target =
    let s = stream_of answer in after_status target ahead s.lines s.tail

-- `port_text` is the port in decimals.
unfoldable pub dial_via_proxy :
    Bytes → Option Bytes → ℕ → Bytes → ℕ → Bytes → Outcome DialError Tunnel
unfolding dial_socks5 dial_http_proxy ◌===◌
dial_via_proxy scheme answer ahead host port port_text =
    if scheme === codes "socks5" || scheme === codes "socks5h"
    then dial_socks5 answer host port
    else if scheme === codes "http" || scheme === codes "https"
    then dial_http_proxy answer ahead (host ++ codes ":" ++ port_text)
    else err unsupported_scheme
