-- ===== src/Geo/Http.antt =====
-- The front end of geo-sni-proxy/internal/proxy/proxy.go: `handleHTTPConn` and `handleTLSConn`, with
-- `readHTTPHeader` and `parseHTTPHost`. `url.Parse` and the dial of the upstream are arguments, and
-- so is how far the reader has read ahead. The host is read in ASCII.
pub mod Laws
use dockerset.Base.{
  ℕ, ◌+◌, ◌*◌, Bool, true, false, not, ◌&&◌, List, [], ◌∷◌, ◌++◌, Option, none, some, ltb, ◌==◌,
  ◌===◌, if◌then◌else◌, Bytes, length, take, drop, codes, get_or, Outcome, ok, err, panic, stuck,
  ◌>>=◌,
}
use dockerset.Go.Text.{
  to_lower, has_prefix, trim_prefix, trim_space, index_byte, index_of, contains, cons_first,
  is_empty,
}
use dockerset.Geo.Tls.{TlsError, read_client_hello}

-- What a client sends: lines, each with its end `\n`, and what comes behind the last of them
pub record Stream : Type 0 where
  pub lines : List Bytes
  pub tail : Bytes

abbrev pub concat : List Bytes → Bytes
concat [] = []
concat (l ∷ ls) = l ++ concat ls

abbrev pub bytes_of : Stream → Bytes
bytes_of s = concat s.lines ++ s.tail

abbrev pub line_byte : ℕ → Bytes → List Bytes → Stream
line_byte b tail [] = record { lines = []; tail = b ∷ tail }
line_byte b tail (l ∷ ls) = record { lines = (b ∷ l) ∷ ls; tail = tail }

-- The lines that `ReadString('\\n')` finds in the bytes, one at a call
unfoldable pub stream_of : Bytes → Stream
stream_of [] = record { lines = []; tail = [] }
stream_of (b ∷ bs) =
    let s = stream_of bs in
    if b == 10 then record s { lines = (b ∷ []) ∷ s.lines } else line_byte b s.tail s.lines

-- `h[:j]` up to a colon, if it is not the first character
unfoldable pub cut_port : Bytes → Bytes
unfolding index_byte
cut_port h = elim (index_byte h b':') [ none ↦ h | some j ↦ if ltb 0 j then take j h else h ]

-- The value of a line that begins with `host:` in letters of either case
unfoldable pub host_value : Bytes → Bytes
unfolding trim_space trim_prefix
host_value l = trim_space (trim_prefix (trim_space (trim_prefix l (codes "Host:"))) (codes "host:"))

unfoldable pub is_host_line : Bytes → Bool
unfolding has_prefix
is_host_line l = has_prefix (to_lower l) (codes "host:")

-- The pieces without the first character of the first one
abbrev pub drop_first : List Bytes → List Bytes
drop_first [] = []
drop_first (p ∷ ps) = drop 1 p ∷ ps

-- `strings.Split(s, "\r\n")`
unfoldable pub split_crlf : Bytes → List Bytes
split_crlf [] = [] ∷ []
split_crlf (x ∷ s) =
    let rest = split_crlf s in
    if x == 13 && get_or s 0 0 == 10 then [] ∷ drop_first rest else cons_first x rest

-- The loop of `parseHTTPHost`: the first host that is not empty
unfoldable pub find_host : List Bytes → Option Bytes
unfolding is_host_line host_value cut_port
find_host [] = none
find_host (l ∷ ls) =
    let rest = find_host ls in
    if is_host_line l && not (length (host_value l) == 0)
    then some (cut_port (host_value l))
    else rest

abbrev pub given_host : Option Bytes → Bytes
given_host none = []
given_host (some host) = if length host == 0 then [] else cut_port host

-- The host of the URL in the first line: `first[start:uEnd]` panics where it ends before it starts.
-- `parse_url` gives `pu.Host`.
unfoldable pub request_line_host : (Bytes → Option Bytes) → Bytes → Outcome Unit Bytes
unfolding contains index_of cut_port
request_line_host parse_url first = elim (index_of first (codes " HTTP/")) [
  | none ↦ ok []
  | some u_end ↦ elim (index_of first (codes "http://")) [
    | none ↦ ok []
    | some start ↦
        if contains first (codes " http://") && ltb 0 u_end
        then if ltb u_end start
          then panic
          else ok (given_host (parse_url (drop start (take u_end first))))
        else ok []
  ]
]

abbrev pub first_line : List Bytes → Bytes
first_line [] = []
first_line (l ∷ ls) = l

unfoldable pub parse_http_host : (Bytes → Option Bytes) → Bytes → Outcome Unit Bytes
unfolding split_crlf find_host request_line_host
parse_http_host parse_url b = elim (find_host (split_crlf b)) [
  | some host ↦ ok host
  | none ↦ request_line_host parse_url (first_line (split_crlf b))
]

-- What `readHTTPHeader` returns, and what is left of the stream
pub record Header : Type 0 where
  pub bytes : Bytes
  pub host : Bytes
  pub left : Stream

pub data ConnError : Type 0 where
  header_unread no_host upstream_undialled : ConnError

-- The host after a line: the first one that is given, which may be empty
unfoldable pub next_host : Bytes → Bytes → Bytes
unfolding is_host_line host_value cut_port
next_host host l = if is_host_line l && length host == 0 then cut_port (host_value l) else host

-- The loop of `readHTTPHeader`: none where the stream ends before the empty line
unfoldable pub read_lines : Bytes → Bytes → List Bytes → Bytes → Option Header
unfolding next_host ◌===◌
read_lines buf host [] tail = none
read_lines buf host (l ∷ ls) tail =
    let rest = read_lines (buf ++ l) (next_host host l) ls tail in
    if l === (13 ∷ 10 ∷ [])
    then some record {
      bytes = buf ++ l;
      host = next_host host l;
      left = record { lines = ls; tail = tail };
    }
    else rest

abbrev pub hosted : Header → Outcome Unit Bytes → Outcome ConnError Header
hosted h (ok host) = ok (record h { host = host })
hosted h (err e) = panic
hosted h panic = panic
hosted h stuck = stuck

abbrev pub with_host : (Bytes → Option Bytes) → Header → Outcome ConnError Header
with_host parse_url h =
    if length h.host == 0 then hosted h (parse_http_host parse_url h.bytes) else ok h

abbrev pub header_of : (Bytes → Option Bytes) → Option Header → Outcome ConnError Header
header_of parse_url none = err header_unread
header_of parse_url (some h) = with_host parse_url h

unfoldable pub read_http_header : (Bytes → Option Bytes) → Stream → Outcome ConnError Header
unfolding read_lines parse_http_host
read_http_header parse_url s = header_of parse_url (read_lines [] [] s.lines s.tail)

-- A connection that is passed on: what the handler writes to the upstream, in order, and what
-- `pipeAndLog` then copies
pub record Forward : Type 0 where
  pub host : Bytes
  pub port : ℕ
  pub sent : Bytes
  pub piped : Bytes

-- The reader has read `ahead` bytes beyond those that it gave; these are written on their own.
abbrev pub forward : Bytes → ℕ → Bytes → ℕ → Bytes → Forward
forward host port first ahead left = record {
  host = host;
  port = port;
  sent = first ++ take ahead left;
  piped = drop ahead left;
}

-- `dials host port` tells whether `dialViaProxy` returns a connection.
abbrev pub pass_on : (Bytes → ℕ → Bool) → ℕ → Header → Outcome ConnError Forward
pass_on dials ahead h =
    if length h.host == 0
    then err no_host
    else if dials h.host 80
    then ok (forward h.host 80 h.bytes ahead (bytes_of h.left))
    else err upstream_undialled

unfoldable pub handle_http_conn :
    (Bytes → Option Bytes) → (Bytes → ℕ → Bool) → ℕ → Bytes → Outcome ConnError Forward
unfolding stream_of read_http_header
handle_http_conn parse_url dials ahead stream = do
  h ← read_http_header parse_url (stream_of stream)
  pass_on dials ahead h

-- `read_client_hello` is this handler up to the dial; none where the upstream is not dialled.
unfoldable pub handle_tls_conn : (Bytes → ℕ → Bool) → ℕ → Bytes → Outcome TlsError (Option Forward)
unfolding read_client_hello
handle_tls_conn dials ahead stream = do
  (name, hello) ← read_client_hello stream
  if dials name 443
      then ok (some (forward name 443 hello ahead (drop (length hello) stream)))
      else ok none
