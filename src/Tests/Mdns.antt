-- ===== src/Tests/Mdns.antt =====
-- minimdnsd at concrete packets and interfaces.
use dockerset.Base.{
  ◌≡◌, ◌≢◌, refl, inl, ◌⊎◌, true, false, [], ◌∷◌, ◌++◌, arith, Bytes, length, codes, some, ok, err,
  Succeeds, index, slice, ◌===◌, any, take, sym, List, Option, ◌==◌, ℕ,
}
use dockerset.Go.Text.{split, join, to_lower, lower, trim_space}
use dockerset.Go.Net.{to4, is_unspecified, is_multicast, contains_ip}
use dockerset.Mdns.Hostname.{normalize_hostname, read_hostname_from_file, invalid_char}
use dockerset.Mdns.Hostname.Label.{IsHostname, normalize_hostname-IsHostname, local_wire}
use dockerset.Mdns.Name.{parse_name, encode_name, too_many_pointers}
use dockerset.Mdns.Name.RoundTrip.{parse_name-encode_name}
use dockerset.Mdns.Query.{parse_intent, no_intent}
use dockerset.Mdns.Query.Laws.{query_bytes}
use dockerset.Mdns.Response.{build_response, response_header, answers_of}
use dockerset.Mdns.Response.Layout.{
  IsReply, build_response-IsReply, parse_intent-build_response, reply_header, records,
}
use dockerset.Mdns.Iface.{
  Iface, ip_net, ip_addr, iface_usable_ips, source_ip_matches_interface, select_interfaces,
  parse_interface_allow_list, interface_not_found,
}
use dockerset.Mdns.Server.{
  read_error, datagram, serve_event, serve_udp, to_source, to_group, fqdn_of,
}
use dockerset.Mdns.Server.Ignored.{serve_event-ignored}
use dockerset.Mdns.Iface.First.{AreOffers, IsOffer, no_more, offered, unusable}
use dockerset.Mdns.Server.Replies.{serve_udp-Succeeds, serve_event-query_bytes, rr_of}

-- "nas.Local" behind two bytes, then a pointer back to it
abbrev sample : Bytes
sample = 7 ∷ 9 ∷ 3 ∷ codes "NAS" ++ (5 ∷ codes "Local" ++ (0 ∷ 1 ∷ b'x' ∷ 0xC0 ∷ 2 ∷ []))

encoded : encode_name (codes "NAS.Local") ≡ ok (3 ∷ codes "NAS" ++ (5 ∷ codes "Local" ++ (0 ∷ [])))
unfolding encode_name split
encoded = refl

parse_pointer : parse_name sample 13 ≡ ok (codes "x.nas.local", 17)
unfolding parse_name split join index slice lower
parse_pointer = refl

-- A pointer to itself is refused.
parse_loop : parse_name (0xC0 ∷ 0 ∷ []) 0 ≡ err too_many_pointers
unfolding parse_name index
parse_loop = refl

parse_name-encode_name_example : parse_name sample 2 ≡ ok (codes "nas.local", 13)
unfolding lower
parse_name-encode_name_example =
    parse_name-encode_name (codes "NAS.Local") (3 ∷ codes "NAS" ++ (5 ∷ codes "Local" ++ (0 ∷ [])))
      (7 ∷ 9 ∷ []) (1 ∷ b'x' ∷ 0xC0 ∷ 2 ∷ []) encoded

normalized : normalize_hostname (codes " NAS-1\n") ≡ ok (codes "nas-1")
unfolding normalize_hostname trim_space lower
normalized = refl

refused : normalize_hostname (codes "a.b") ≡ err (invalid_char b'.')
unfolding normalize_hostname trim_space lower
refused = refl

read_file : read_hostname_from_file (ok (codes "nas-1\nsecond")) ≡ ok (codes "nas-1")
unfolding read_hostname_from_file trim_space lower split
read_file = refl

nas_1-IsHostname : IsHostname (codes "nas-1")
nas_1-IsHostname = normalize_hostname-IsHostname (codes " NAS-1\n") (codes "nas-1") normalized

abbrev eth0 : Iface
eth0 = record {
  name = codes "eth0";
  up = true;
  loopback = false;
  multicast = true;
  addrs = some (
      ip_net (record { ip = 192 ∷ 168 ∷ 1 ∷ 10 ∷ []; mask = 255 ∷ 255 ∷ 255 ∷ 0 ∷ [] })
      ∷ ip_addr (127 ∷ 0 ∷ 0 ∷ 1 ∷ [])
      ∷ []);
}

abbrev lo : Iface
lo = record {
  name = codes "lo";
  up = true;
  loopback = true;
  multicast = false;
  addrs = some (ip_net (record { ip = 127 ∷ 0 ∷ 0 ∷ 1 ∷ []; mask = 255 ∷ 0 ∷ 0 ∷ 0 ∷ [] }) ∷ []);
}

eth0_ips : iface_usable_ips eth0 false ≡ (192 ∷ 168 ∷ 1 ∷ 10 ∷ []) ∷ []
unfolding iface_usable_ips to4 is_unspecified is_multicast ◌===◌
eth0_ips = refl

near : source_ip_matches_interface eth0 (192 ∷ 168 ∷ 1 ∷ 77 ∷ []) false ≡ true
unfolding source_ip_matches_interface any to4 contains_ip
near = refl

selected : select_interfaces (some (lo ∷ eth0 ∷ [])) (some (codes "eth0" ∷ [])) ≡ ok (eth0 ∷ [])
unfolding select_interfaces ◌===◌
selected = refl

allow_list :
    parse_interface_allow_list (codes " eth0, net1,,eth0 ")
    ≡ some (codes "eth0" ∷ codes "net1" ∷ [])
unfolding parse_interface_allow_list trim_space split ◌===◌
allow_list = refl

absent :
    select_interfaces (some (lo ∷ eth0 ∷ [])) (some (codes "net1" ∷ []))
    ≡ err (interface_not_found (codes "net1"))
unfolding select_interfaces ◌===◌
absent = refl

abbrev reply : Bytes
reply =
    response_header 7 1
    ++ (3 ∷ codes "nas"
        ++ (0 ∷ 0 ∷ 1 ∷ 0x80 ∷ 1 ∷ 0 ∷ 0 ∷ 0 ∷ 0xF0 ∷ 0 ∷ 4 ∷ 192 ∷ 168 ∷ 1 ∷ 10 ∷ []))

built : build_response 7 (codes "nas") ((192 ∷ 168 ∷ 1 ∷ 10 ∷ []) ∷ []) 1 ≡ ok reply
unfolding build_response encode_name split to4
built = refl

build_response-IsReply_example :
    (reply ≡ []) ⊎ IsReply 7 (codes "nas") ((192 ∷ 168 ∷ 1 ∷ 10 ∷ []) ∷ []) 1 reply
build_response-IsReply_example =
    build_response-IsReply 7 (codes "nas") ((192 ∷ 168 ∷ 1 ∷ 10 ∷ []) ∷ []) 1 reply built

reply-ne-nil : reply ≢ []
reply-ne-nil e = cc

parse_intent-build_response_example :
    parse_intent reply (codes "nas")
    ≡ ok (reply_header 7 (length (answers_of 1 ((192 ∷ 168 ∷ 1 ∷ 10 ∷ []) ∷ []))), no_intent)
parse_intent-build_response_example =
    parse_intent-build_response 7 (codes "nas") ((192 ∷ 168 ∷ 1 ∷ 10 ∷ []) ∷ []) 1 reply
      (codes "nas") (omega arith) built reply-ne-nil

folded : to_lower (codes "NAS.Local") ≡ codes "nas.local"
unfolding lower
folded = refl

cons-ne-nil : (c : ℕ) (s : Bytes) → c ∷ s ≢ []
cons-ne-nil c s e = cc

apart_127 : (n : ℕ) → n == 127 ≡ false → n ≢ 127
apart_127 n h e = ground (arith, h, e)

eth0_offers :
    AreOffers false
      (ip_net (record { ip = 192 ∷ 168 ∷ 1 ∷ 10 ∷ []; mask = 255 ∷ 255 ∷ 255 ∷ 0 ∷ [] })
        ∷ ip_addr (127 ∷ 0 ∷ 0 ∷ 1 ∷ [])
        ∷ [])
      ((192 ∷ 168 ∷ 1 ∷ 10 ∷ []) ∷ [])
unfolding IsOffer to4 is_unspecified is_multicast ◌===◌
eth0_offers =
    offered (cons-ne-nil 192 (168 ∷ 1 ∷ 10 ∷ []), refl, refl, refl, apart_127 192 refl)
      (unusable
        (λ ip offer.
          let (full, unspecified, multicast, four, far) = offer in
          let found : ◌≡◌ {A = Option Bytes} (some (127 ∷ 0 ∷ 0 ∷ 1 ∷ [])) (some ip) = four in
          let same : 127 ∷ 0 ∷ 0 ∷ 1 ∷ [] ≡ ip = cc in far (rw (sym same) refl))
        no_more)

abbrev asked : Bytes
asked = codes "NAS-1.Local"

abbrev asked_wire : Bytes
asked_wire = 5 ∷ codes "NAS-1" ++ (5 ∷ codes "Local" ++ (0 ∷ []))

asked_encoded : encode_name asked ≡ ok asked_wire
unfolding encode_name split
asked_encoded = refl

asked_folded : to_lower asked ≡ fqdn_of (codes "nas-1")
unfolding lower
asked_folded = refl

eth0_ips-ne-nil : ◌≢◌ {A = List Bytes} ((192 ∷ 168 ∷ 1 ∷ 10 ∷ []) ∷ []) []
eth0_ips-ne-nil e = cc

serve_event-query_bytes_example :
    serve_event eth0
      (codes "nas-1")
      false
      (datagram (query_bytes 9 1 1 asked_wire) (192 ∷ 168 ∷ 1 ∷ 77 ∷ []))
    ≡ (let shown : List Bytes = take 3 ((192 ∷ 168 ∷ 1 ∷ 10 ∷ []) ∷ []) in
        let resp =
          response_header 9 (length shown)
          ++ records (local_wire (codes "nas-1")) (rr_of false) shown in
        ok ((to_source (192 ∷ 168 ∷ 1 ∷ 77 ∷ []), resp) ∷ (to_group, resp) ∷ []))
serve_event-query_bytes_example =
    serve_event-query_bytes eth0 (codes "nas-1") (192 ∷ 168 ∷ 1 ∷ 77 ∷ []) asked asked_wire false 9
      1 1 _ ((192 ∷ 168 ∷ 1 ∷ 10 ∷ []) ∷ []) nas_1-IsHostname asked_encoded asked_folded
      (omega arith) (inl refl) near refl eth0_offers eth0_ips-ne-nil

-- The header of a response, with a question for the host
abbrev false_response : Bytes
false_response =
    0 ∷ 7 ∷ 128 ∷ 0 ∷ 0 ∷ 1 ∷ 0 ∷ 0 ∷ 0 ∷ 0 ∷ 0 ∷ 0 ∷ asked_wire ++ (0 ∷ 1 ∷ 0 ∷ 1 ∷ [])

serve_event-ignored_example :
    serve_event eth0 (codes "nas-1") false (datagram false_response (192 ∷ 168 ∷ 1 ∷ 77 ∷ []))
    ≡ ok []
serve_event-ignored_example =
    serve_event-ignored eth0 (codes "nas-1") (192 ∷ 168 ∷ 1 ∷ 77 ∷ []) false 0 7 128 0
      (0 ∷ 1 ∷ 0 ∷ 0 ∷ 0 ∷ 0 ∷ 0 ∷ 0 ∷ asked_wire ++ (0 ∷ 1 ∷ 0 ∷ 1 ∷ [])) (omega arith)
      (omega arith) (omega arith)

serve_udp-Succeeds_example : Succeeds (
    serve_udp eth0
      (codes "nas")
      false
      (read_error ∷ datagram (0xC0 ∷ 0 ∷ []) (192 ∷ 168 ∷ 1 ∷ 77 ∷ []) ∷ datagram reply [] ∷ []))
serve_udp-Succeeds_example =
    serve_udp-Succeeds eth0 (codes "nas") false
      (read_error ∷ datagram (0xC0 ∷ 0 ∷ []) (192 ∷ 168 ∷ 1 ∷ 77 ∷ []) ∷ datagram reply [] ∷ [])
