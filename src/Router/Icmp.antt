-- ===== src/Router/Icmp.antt =====
-- code-exp5/icmp.c and, of ip_base.c, ip_init_hdr and ip_send_packet: packets that the router makes.
pub mod Replies
use njucn_lab.Common.{
  ℕ, ◌+◌, ◌-◌, ◌*◌, ◌/◌, ◌%◌, ◌^◌, List, [], ◌∷◌, ◌++◌, Option, none, some, slice, blit, replicate,
  get_or, length, drop, ◌==◌, if◌then◌else◌,
}
use njucn_lab.Net.Bytes.{be16, be32, le16, get32}
use njucn_lab.Net.Checksum.{checksum}
use njucn_lab.Router.Rtable.{Iface, RtEntry, longest_prefix_match}
use njucn_lab.Router.State.{Router}
use njucn_lab.Router.Arp.{iface_send_packet_by_arp}

-- IP_HDR_SIZE of the header behind the ethernet header: the low four bits of its first byte, in words.
abbrev pub ip_hdr_size : List ℕ → ℕ
ip_hdr_size packet = get_or packet 14 0 % 16 * 4

abbrev pub ip_saddr : List ℕ → ℕ
ip_saddr packet = get32 packet 26

abbrev pub ip_daddr : List ℕ → ℕ
ip_daddr packet = get32 packet 30

-- The header of ip_init_hdr up to the checksum field, and what follows it. The identification is
-- stored with no htons.
abbrev pub hdr_front : ℕ → ℕ → ℕ → List ℕ
hdr_front id len proto =
    0x45 ∷ 0 ∷ [] ++ (be16 len ++ (le16 id ++ (be16 0x4000 ++ (64 ∷ proto ∷ []))))

abbrev pub hdr_back : ℕ → ℕ → List ℕ
hdr_back saddr daddr = be32 saddr ++ be32 daddr

-- ip_checksum takes the checksum with its own field zeroed.
unfoldable pub ip_init_hdr : ℕ → ℕ → ℕ → ℕ → ℕ → List ℕ
ip_init_hdr id saddr daddr len proto =
    let front = hdr_front id len proto in
    let back = hdr_back saddr daddr in
    let sum = checksum (front ++ (0 ∷ 0 ∷ back)) 0 in front ++ (sum % 256 ∷ sum / 256 ∷ back)

abbrev pub next_hop : RtEntry → ℕ → ℕ
next_hop entry daddr = if entry.gw == 0 then daddr else entry.gw

-- Without a route the packet is dropped.
unfoldable pub ip_send_packet : List ℕ → Router → Router
ip_send_packet packet r = elim (longest_prefix_match (ip_daddr packet) r.rtable) [
  | none ↦ r
  | some entry ↦ iface_send_packet_by_arp entry.iface (next_hop entry (ip_daddr packet)) packet r
]

abbrev pub icmp_echoreply : ℕ
icmp_echoreply = 0

-- The ICMP message with its checksum field zeroed. An echo reply is the request's message with type
-- and code set to 0; an error has 8 bytes of header and then the IP header and 8 bytes of the packet.
pub icmp_body : List ℕ → ℕ → ℕ → List ℕ
icmp_body in_pkt type code =
    if type == icmp_echoreply
    then 0
      ∷ 0
      ∷ 0
      ∷ 0
      ∷ slice in_pkt (14 + ip_hdr_size in_pkt + 4) (length in_pkt - 14 - ip_hdr_size in_pkt - 4)
    else type ∷ code ∷ 0 ∷ 0 ∷ 0 ∷ 0 ∷ 0 ∷ 0 ∷ slice in_pkt 14 (ip_hdr_size in_pkt + 8)

-- The checksum is stored as the machine does, low byte first.
pub with_checksum : List ℕ → List ℕ
with_checksum body = blit body 2 (le16 (checksum body 0))

-- The packet goes back to the source of `in_pkt`, from the address of the interface on the way; with
-- no route nothing is sent, and rand() is not called.
unfoldable pub icmp_send_packet : List ℕ → ℕ → ℕ → Router → Router
unfolding icmp_body with_checksum
icmp_send_packet in_pkt type code r =
    let dst_ip = ip_saddr in_pkt in
    let body = icmp_body in_pkt type code in
    elim (longest_prefix_match dst_ip r.rtable) [
      | none ↦ r
      | some entry ↦
          ip_send_packet
            (replicate 12 0
              ++ (be16 0x0800
                  ++ (ip_init_hdr (r.rand r.draws % 2 ^ 16) entry.iface.ip dst_ip (20 + length body)
                        1
                      ++ with_checksum body)))
            (record r { draws = r.draws + 1 })
    ]
