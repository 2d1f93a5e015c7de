-- ===== src/Tests/Http.antt =====
-- Requests that the front end of geo-sni-proxy passes on, and two that it does not serve as it should.
use dockerset.Base.{
  ℕ, ◌≡◌, refl, inl, ◌⊎◌, Bool, true, [], ◌∷◌, ◌++◌, Option, none, Bytes, codes, ok, panic, ◌===◌,
}
use dockerset.Go.Text.{lower, has_prefix, trim_prefix, trim_space, index_byte, index_of, contains}
use dockerset.Geo.Http.{
  Forward, handle_http_conn, split_crlf, find_host, request_line_host, parse_http_host, read_lines,
  read_http_header, stream_of, is_host_line, host_value, cut_port, next_host,
}
use dockerset.Geo.Http.Laws.{IsPassedOn, handle_conn-IsPassedOn}

abbrev no_url : Bytes → Option Bytes
no_url u = none

abbrev anywhere : Bytes → ℕ → Bool
anywhere host port = true

-- The end of a line
abbrev line : Bytes → Bytes
line l = l ++ (13 ∷ 10 ∷ [])

abbrev request : Bytes
request = line (codes "GET / HTTP/1.1") ++ line (codes "host: a.b:81") ++ line [] ++ codes "body"

abbrev passed : Forward
passed = record {
  host = codes "a.b";
  port = 80;
  sent = line (codes "GET / HTTP/1.1") ++ line (codes "host: a.b:81") ++ line [] ++ codes "bo";
  piped = codes "dy";
}

handled : handle_http_conn no_url anywhere 2 request ≡ ok passed
unfolding handle_http_conn read_http_header read_lines stream_of next_host is_host_line host_value
    cut_port has_prefix lower trim_space trim_prefix index_byte ◌===◌
handled = refl

handle_conn-IsPassedOn_example :
    IsPassedOn anywhere request passed × ((passed.port ≡ 80) ⊎ (passed.port ≡ 443))
handle_conn-IsPassedOn_example =
    handle_conn-IsPassedOn no_url anywhere 2 request passed (inl handled)

-- `first[start:uEnd]` ends before it starts.
slice_panic :
    handle_http_conn no_url anywhere 0 (line (codes "GET / HTTP/1.1 http://") ++ line []) ≡ panic
unfolding handle_http_conn read_http_header parse_http_host split_crlf find_host request_line_host
    contains index_of read_lines stream_of next_host is_host_line has_prefix lower ◌===◌
slice_panic = refl

upper_case : cut_port (host_value (line (codes "HOST: a.b"))) ≡ codes "HOST"
unfolding cut_port host_value trim_space trim_prefix has_prefix index_byte
upper_case = refl
