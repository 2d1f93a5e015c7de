-- ===== src/Tests/Tunnel.antt =====
-- A proxy that sends three bytes behind its answer, of which two are read ahead and lost.
use dockerset.Base.{◌≡◌, refl, ◌++◌, some, Bytes, codes, ok, err, ◌===◌}
use dockerset.Go.Text.{has_prefix, index_of, contains}
use dockerset.Geo.Http.{stream_of}
use dockerset.Geo.Socks.{Tunnel, proxy_refused}
use dockerset.Geo.Tunnel.{crlf, connect_text, drain_headers, dial_http_proxy, dial_via_proxy}
use dockerset.Geo.Tunnel.Laws.{IsTunnel, dial_http_proxy-IsTunnel}

abbrev answer : Bytes
answer = codes "HTTP/1.1 200 OK" ++ crlf ++ codes "Via: p" ++ crlf ++ crlf ++ codes "220"

abbrev tunnel : Tunnel
tunnel = record { written = connect_text (codes "a.b:80"); unread = codes "0" }

dialled : dial_http_proxy (some answer) 2 (codes "a.b:80") ≡ ok tunnel
unfolding dial_http_proxy drain_headers stream_of contains index_of has_prefix ◌===◌
dialled = refl

dial_http_proxy-IsTunnel_example : IsTunnel answer 2 (codes "a.b:80") tunnel
dial_http_proxy-IsTunnel_example = dial_http_proxy-IsTunnel answer 2 (codes "a.b:80") tunnel dialled

refused_by_proxy :
    dial_via_proxy
      (codes "https")
      (some (codes "HTTP/1.1 403" ++ crlf ++ crlf))
      0
      (codes "a.b")
      80
      (codes "80")
    ≡ err proxy_refused
unfolding dial_via_proxy dial_http_proxy drain_headers stream_of contains index_of has_prefix ◌===◌
refused_by_proxy = refl
