-- ===== src/Tests/Geo.antt =====
-- geo-sni-proxy at concrete records, answers and replies.
use dockerset.Base.{
  ◌≡◌, refl, inl, ◌⊎◌, Bool, true, false, [], ◌∷◌, ◌++◌, arith, Bytes, List, codes, none, some, ok,
  err, panic, Returns, ◌===◌, any, index, uint16,
}
use dockerset.Go.Text.{lower, to_lower, trim_suffix, trim_space}
use dockerset.Go.Net.{to4, is_loopback, is_unspecified, is_link_local_unicast}
use dockerset.Geo.Tls.{parse_sni, handshake, read_client_hello, header_unread}
use dockerset.Geo.Tls.Fault.{IsEmptyRecord, parse_sni_fault}
use dockerset.Geo.Tls.Hello.{Hello, IsHello, hello_record}
use dockerset.Geo.Tls.Extract.{parse_sni-hello_record}
use dockerset.Geo.Rewrite.{
  Rr, type_a, type_aaaa, type_cname, class_inet, rewrite_answers, Msg, filter_answers,
  filter_answers_by_name, failed, received, query_upstream_msg, NetIface, answer_ip, find_bypass_ip,
  env_enabled, localhost,
}
use dockerset.Geo.Socks.{connect_request, dial_socks5, greeting}
use dockerset.Geo.Socks.Laws.{
  requested, requested-connect_request, address_part, dial_socks5-any_status,
}

abbrev thirty_two : Bytes
thirty_two = codes "0123456789abcdef0123456789ABCDEF"

abbrev hello : Hello
hello = record {
  version = 3 ∷ 3 ∷ [];
  random = thirty_two;
  session = 1 ∷ 2 ∷ [];
  ciphers = 0x13 ∷ 1 ∷ [];
  compressions = 0 ∷ [];
  before = (10, 0 ∷ 2 ∷ 0 ∷ 29 ∷ []) ∷ [];
  host = codes "Example.org";
  after = [];
}

hello-IsHello : IsHello hello
hello-IsHello = record { version_size = refl; random_size = refl; others = (λ e. cc, tt) }

named : to_lower (codes "Example.org") ≡ codes "example.org"
unfolding lower
named = refl

parse_sni-hello_record_example :
    parse_sni (hello_record hello) ≡ ok (to_lower (codes "Example.org"))
parse_sni-hello_record_example = parse_sni-hello_record hello hello-IsHello

-- A record with an empty body: `b[offset]` is out of range.
empty_record : parse_sni (0x16 ∷ 3 ∷ 1 ∷ 0 ∷ 0 ∷ []) ≡ panic
unfolding parse_sni handshake index uint16
empty_record = refl

parse_sni_fault_example :
    (IsEmptyRecord (0x16 ∷ 3 ∷ 1 ∷ 0 ∷ 0 ∷ []) × (parse_sni (0x16 ∷ 3 ∷ 1 ∷ 0 ∷ 0 ∷ []) ≡ panic))
    ⊎ (¬ IsEmptyRecord (0x16 ∷ 3 ∷ 1 ∷ 0 ∷ 0 ∷ [])
        × Returns (parse_sni (0x16 ∷ 3 ∷ 1 ∷ 0 ∷ 0 ∷ [])))
parse_sni_fault_example = parse_sni_fault (0x16 ∷ 3 ∷ 1 ∷ 0 ∷ 0 ∷ [])

cut_record : read_client_hello (0x16 ∷ 3 ∷ []) ≡ err header_unread
unfolding read_client_hello
cut_record = refl

abbrev is_video : Bytes → Bool
is_video name = name === codes "video.example"

abbrev answers : List Rr
answers =
    record {
      name = codes "video.example.";
      rr_type = type_cname;
      class = class_inet;
      ttl = 60;
      rdata = codes "cdn.example.";
    }
    ∷ record {
      name = codes "cdn.example.";
      rr_type = type_a;
      class = class_inet;
      ttl = 60;
      rdata = 8 ∷ 8 ∷ 4 ∷ 4 ∷ [];
    }
    ∷ record {
      name = codes "video.example.";
      rr_type = type_aaaa;
      class = class_inet;
      ttl = 9;
      rdata = [];
    }
    ∷ []

abbrev upstream_reply : Msg
upstream_reply = record {
  rcode = 2;
  recursion_available = true;
  authoritative = false;
  truncated = false;
  answer = answers;
  ns = [];
  extra = [];
}

rewrites :
    (rewrite_answers is_video answers localhost).0
    ≡ record {
      name = codes "video.example.";
      rr_type = type_a;
      class = class_inet;
      ttl = 60;
      rdata = localhost;
    }
      ∷ record {
        name = codes "cdn.example.";
        rr_type = type_a;
        class = class_inet;
        ttl = 60;
        rdata = 8 ∷ 8 ∷ 4 ∷ 4 ∷ [];
      }
      ∷ []
unfolding rewrite_answers ◌===◌ trim_suffix
rewrites = refl

filtered :
    filter_answers answers (codes "VIDEO.example.") (type_aaaa ∷ type_cname ∷ [])
    ≡ filter_answers_by_name answers (codes "Video.Example.")
unfolding filter_answers filter_answers_by_name lower
filtered = refl

over_tcp : query_upstream_msg failed (received (some upstream_reply)) ≡ some upstream_reply
unfolding query_upstream_msg
over_tcp = refl

abbrev docker0 : NetIface
docker0 = record {
  up = true;
  loopback = false;
  addrs = some (some (169 ∷ 254 ∷ 0 ∷ 1 ∷ []) ∷ none ∷ some (10 ∷ 0 ∷ 0 ∷ 5 ∷ []) ∷ []);
}

chosen : answer_ip (codes " On ") (docker0 ∷ []) ≡ 10 ∷ 0 ∷ 0 ∷ 5 ∷ []
unfolding answer_ip find_bypass_ip env_enabled any trim_space lower to4 is_loopback is_unspecified
    is_link_local_unicast ◌===◌
chosen = refl

requested-connect_request_example :
    requested (connect_request (codes "example.org") 443) ≡ some (codes "example.org", 443)
requested-connect_request_example =
    requested-connect_request (codes "example.org") 443 (omega arith) (omega arith)

-- Status 5: the proxy refuses the connection.
dial_socks5-any_status_example :
    dial_socks5
      (some (5 ∷ 255 ∷ 5 ∷ 5 ∷ 0 ∷ 1 ∷ (address_part 1 (0 ∷ 0 ∷ 0 ∷ 0 ∷ []) ++ (0 ∷ 0 ∷ []))))
      (codes "example.org")
      443
    ≡ ok (record { written = greeting ++ connect_request (codes "example.org") 443; unread = [] })
dial_socks5-any_status_example =
    dial_socks5-any_status 5 255 5 5 0 1 0 0 (0 ∷ 0 ∷ 0 ∷ 0 ∷ []) [] (codes "example.org") 443
      (inl (refl, refl))
