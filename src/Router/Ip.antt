-- ===== src/Router/Ip.antt =====
-- code-exp5/ip.c: what the router does with an IP packet.
pub mod Forwarding
pub mod Header
use njucn_lab.Common.{
  ℕ, ◌+◌, ◌%◌, List, [], ◌∷◌, Option, none, some, slice, blit, set, get_or, ◌==◌, ◌&&◌,
  if◌then◌else◌,
}
use njucn_lab.Net.Bytes.{le16}
use njucn_lab.Net.Checksum.{checksum}
use njucn_lab.Router.Rtable.{Iface, RtEntry, longest_prefix_match}
use njucn_lab.Router.State.{Router}
use njucn_lab.Router.Arp.{iface_send_packet_by_arp}
use njucn_lab.Router.Icmp.{icmp_send_packet, ip_hdr_size, ip_daddr, next_hop}

abbrev pub ip_ttl : List ℕ → ℕ
ip_ttl packet = get_or packet 22 0

abbrev pub ip_protocol : List ℕ → ℕ
ip_protocol packet = get_or packet 23 0

-- ip->checksum = ip_checksum(ip): the sum over the header with the field zeroed, stored low byte first.
unfoldable pub refresh_checksum : List ℕ → List ℕ
refresh_checksum packet =
    let zeroed = blit packet 24 (0 ∷ 0 ∷ []) in
    blit packet 24 (le16 (checksum (slice zeroed 14 (ip_hdr_size packet)) 0))

-- ip->ttl-- on a u8.
unfoldable pub decrement_ttl : List ℕ → List ℕ
decrement_ttl packet = set packet 22 ((ip_ttl packet + 255) % 256)

-- The rest of ip_forward_packet, for a packet whose time has not run out.
unfoldable pub route_packet : ℕ → List ℕ → Router → Router
route_packet ip_dst packet r = elim (longest_prefix_match ip_dst r.rtable) [
  | none ↦ icmp_send_packet packet 3 0 r
  | some entry ↦ iface_send_packet_by_arp entry.iface (next_hop entry (ip_daddr packet)) packet r
]

-- The router after a packet, or when the function goes on with memory that it has freed: there is no
-- telling what follows then.
pub data Handled : Type 0 where
  handled : Router → Handled
  freed : Router → Handled

-- When the time has run out, the ICMP message (type 11) is sent and the packet is freed, but the function
-- goes on and writes the packet's checksum.
pub ip_forward_packet : ℕ → List ℕ → Router → Handled
ip_forward_packet ip_dst packet r =
    let packet' = decrement_ttl packet in
    if ip_ttl packet' == 0
    then freed (icmp_send_packet packet' 11 0 r)
    else handled (route_packet ip_dst (refresh_checksum packet') r)

-- An echo request (ICMP is protocol 1, the request type 8) to the interface's own address is answered.
pub handle_ip_packet : Iface → List ℕ → Router → Handled
handle_ip_packet iface packet r =
    if ip_protocol packet == 1
      && (get_or packet (14 + ip_hdr_size packet) 0 == 8 && ip_daddr packet == iface.ip)
    then handled (icmp_send_packet packet 0 (get_or packet (14 + ip_hdr_size packet + 1) 0) r)
    else ip_forward_packet (ip_daddr packet) packet r
