-- ===== src/Mospf/Ip.antt =====
-- code-exp7/ip.c and handle_packet of code-exp7/main.c: packets of a router that computes its routes.
-- The ARP cache, ARP, ICMP and the routing table are those of code-exp5.
use njucn_lab.Common.{
  ℕ, ◌+◌, ◌-◌, List, Option, none, some, Bool, ◌&&◌, set, get_or, ltb, ◌==◌, if◌then◌else◌,
}
use njucn_lab.Net.Bytes.{get16}
use njucn_lab.Router.Rtable.{Iface, RtEntry, longest_prefix_match}
use njucn_lab.Router.State.{Router}
use njucn_lab.Router.Arp.{iface_send_packet_by_arp, handle_arp_packet}
use njucn_lab.Router.Icmp.{icmp_send_packet, ip_hdr_size, ip_daddr, next_hop}
use njucn_lab.Router.Ip.{ip_ttl, ip_protocol, refresh_checksum}
use njucn_lab.Mospf.Instance.{Instance}
use njucn_lab.Mospf.Proto.{ipproto_mospf, mospf_all_spf_routers}
use njucn_lab.Mospf.Flood.{handle_mospf_packet}

-- The packet with one hop less to go.
abbrev pub hop_packet : List ℕ → List ℕ
hop_packet packet = refresh_checksum (set packet 22 (ip_ttl packet - 1))

-- Time exceeded is ICMP type 11, destination unreachable type 3.
unfoldable pub forward_packet : ℕ → List ℕ → Router → Router
forward_packet ip_dst packet r =
    let routed : Router = elim (longest_prefix_match ip_dst r.rtable) [
      | none ↦ icmp_send_packet (hop_packet packet) 3 0 r
      | some entry ↦
          iface_send_packet_by_arp entry.iface (next_hop entry ip_dst) (hop_packet packet) r
    ] in
    if ltb 1 (ip_ttl packet) then routed else icmp_send_packet packet 11 0 r

abbrev pub is_echo_request : List ℕ → Bool
is_echo_request packet = ip_protocol packet == 1 && get_or packet (14 + ip_hdr_size packet) 0 == 8

-- `none` is a failed assertion, or a fault of the protocol's handler.
unfoldable pub receive_ip : List RtEntry → Iface → List ℕ → Instance → Option Instance
receive_ip kernel iface packet s =
    if ip_daddr packet == iface.ip
    then if ip_protocol packet == 1
      then some (
          if is_echo_request packet
          then record s { router = icmp_send_packet packet 0 0 s.router }
          else s)
      else if ip_protocol packet == ipproto_mospf
      then handle_mospf_packet kernel iface packet s
      else some s
    else if ip_daddr packet == mospf_all_spf_routers
    then if ip_protocol packet == ipproto_mospf
      then handle_mospf_packet kernel iface packet s
      else none
    else some (record s { router = forward_packet (ip_daddr packet) packet s.router })

-- By the ethernet type: IP, ARP, or nothing.
unfoldable pub receive_packet : List RtEntry → Iface → List ℕ → Instance → Option Instance
receive_packet kernel iface packet s =
    if get16 packet 12 == 0x0800
    then receive_ip kernel iface packet s
    else if get16 packet 12 == 0x0806
    then some (record s { router = handle_arp_packet iface packet s.router })
    else some s
