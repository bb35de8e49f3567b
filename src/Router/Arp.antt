-- ===== src/Router/Arp.antt =====
-- code-exp5/arp.c: ARP requests and replies, and sending by way of the ARP cache.
pub mod Frames
use njucn_lab.Common.{
  ℕ, List, [], ◌∷◌, ◌++◌, Option, none, some, slice, blit, replicate, ◌==◌, if◌then◌else◌, not,
}
use njucn_lab.Net.Bytes.{be16, be32, get16, get32}
use njucn_lab.Router.Rtable.{Iface}
use njucn_lab.Router.State.{Router, iface_send_packet}
use njucn_lab.Router.ArpCache.{arpcache_lookup, arpcache_insert, arpcache_append_packet}
use njucn_lab.Router.ArpCache.Request.{arp_frame, arp_send_request}

-- Offsets into an ARP packet behind its ethernet header: struct ether_arp is packed.
abbrev pub arp_op : List ℕ → ℕ
arp_op packet = get16 packet 20

abbrev pub arp_sha : List ℕ → List ℕ
arp_sha packet = slice packet 22 6

abbrev pub arp_spa : List ℕ → ℕ
arp_spa packet = get32 packet 28

abbrev pub arp_tpa : List ℕ → ℕ
arp_tpa packet = get32 packet 38

-- The target address of the reply is copied from the request as it stands there.
pub arp_send_reply : Iface → List ℕ → Router → Router
arp_send_reply iface req r =
    iface_send_packet iface (arp_frame (arp_sha req) iface 2 (arp_sha req) (slice req 28 4)) r

-- A packet for another address is dropped; the sender of a request or a reply is learned, and a
-- request is answered.
pub handle_arp_packet : Iface → List ℕ → Router → Router
handle_arp_packet iface packet r =
    if not (arp_tpa packet == iface.ip)
    then r
    else if arp_op packet == 1
    then arp_send_reply iface packet (arpcache_insert (arp_spa packet) (arp_sha packet) r)
    else if arp_op packet == 2
    then arpcache_insert (arp_spa packet) (arp_sha packet) r
    else r

-- The source address is filled in first; on a miss the packet waits, and a request goes out in any case.
unfoldable pub iface_send_packet_by_arp : Iface → ℕ → List ℕ → Router → Router
iface_send_packet_by_arp iface dst_ip packet r =
    let framed = blit packet 6 iface.mac in
    elim (arpcache_lookup dst_ip r) [
      | some mac ↦ iface_send_packet iface (blit (blit framed 0 mac) 12 (be16 0x0800)) r
      | none ↦ arp_send_request iface dst_ip (arpcache_append_packet iface dst_ip framed r)
    ]
