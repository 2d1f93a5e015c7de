-- ===== src/Mdns/Server.antt =====
-- The loop of `serveUDP`, over what `ReadFromUDP` returns.
pub mod Replies
pub mod Ignored
use dockerset.Base.{
  ℕ, ◌+◌, Bool, true, false, not, ◌&&◌, List, [], ◌∷◌, ◌++◌, leb, ltb, ◌==◌, if◌then◌else◌, Bytes,
  length, take, codes, Outcome, ok, err, panic, stuck, ◌>>=◌,
}
use dockerset.Mdns.Name.{PacketError}
use dockerset.Mdns.Query.{Header, Intent, parse_intent}
use dockerset.Mdns.Response.{max_packet_size, build_response}
use dockerset.Mdns.Iface.{Iface, iface_usable_ips, source_ip_matches_interface}

-- One return of `ReadFromUDP`: an error, or a datagram and its source address.
pub data Event : Type 0 where
  read_error : Event
  datagram : Bytes → Bytes → Event

pub data Target : Type 0 where
  to_source : Bytes → Target
  to_group : Target

abbrev pub Send : Type 0
Send = Target × Bytes

-- `if err == nil && len(resp) > 0`: the packet goes to the source and to the group.
unfoldable pub send_both : Bytes → Outcome PacketError Bytes → Outcome PacketError (List Send)
send_both src (ok resp) =
    ok (if ltb 0 (length resp) then (to_source src, resp) ∷ (to_group, resp) ∷ [] else [])
send_both src (err e) = ok []
send_both src panic = panic
send_both src stuck = stuck

abbrev pub fqdn_of : Bytes → Bytes
fqdn_of hostname = hostname ++ codes ".local"

-- What follows `parseIntent`
unfoldable pub answer_intent :
    Iface
    → Bytes
    → Bool
    → Bytes
    → Outcome PacketError (Header × Intent)
    → Outcome PacketError (List Send)
unfolding send_both
answer_intent iface hostname ipv6 src (ok (hdr, intent)) = do
  a ←
      (if intent.want_a && not ipv6
        then send_both src
            (build_response hdr.id (fqdn_of hostname) (iface_usable_ips iface false) 1)
        else ok [])
  aaaa ←
      (if intent.want_aaaa && ipv6
        then send_both src
            (build_response hdr.id (fqdn_of hostname) (iface_usable_ips iface true) 28)
        else ok [])
  ok (a ++ aaaa)
answer_intent iface hostname ipv6 src (err e) = ok []
answer_intent iface hostname ipv6 src panic = panic
answer_intent iface hostname ipv6 src stuck = stuck

-- One round of the loop. `buf` holds `maxPacketSize` bytes, and a longer datagram is cut.
unfoldable pub serve_event : Iface → Bytes → Bool → Event → Outcome PacketError (List Send)
unfolding answer_intent
serve_event iface hostname ipv6 read_error = ok []
serve_event iface hostname ipv6 (datagram bytes src) =
    let packet = take max_packet_size bytes in
    if length packet == 0
    then ok []
    else if not (source_ip_matches_interface iface src ipv6)
    then ok []
    else answer_intent iface hostname ipv6 src (parse_intent packet (fqdn_of hostname))

unfoldable pub serve_udp : Iface → Bytes → Bool → List Event → Outcome PacketError (List Send)
unfolding serve_event
serve_udp iface hostname ipv6 [] = ok []
serve_udp iface hostname ipv6 (e ∷ es) = do
  sends ← serve_event iface hostname ipv6 e
  later ← serve_udp iface hostname ipv6 es
  ok (sends ++ later)
