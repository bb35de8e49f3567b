-- ===== src/Router/Ip/Forwarding.antt =====
-- What code-exp5/ip.c does with a packet that it forwards.
use native.Mathlib.Decide.{ℕ_discrete}
use njucn_lab.Common.{
  ◌≢◌, ◌⊎◌, inl, inr, refl, sym, take, drop, drop-blit, slice, get_or, get_or-set_ne,
  get_or-blit_before, get_or-blit_behind, get_or-blit_in, length-set, length-blit, ◌==◌,
  if◌then◌else◌, ℕ, ◌+◌, ◌%◌, ◌≤◌, ◌<◌, ◌≡◌, ◌∙◌, ap, List, [], ◌∷◌, ◌++◌, some, blit, length,
  arith, get_or-set_self,
}
use njucn_lab.Net.Bytes.{be16, get16}
use njucn_lab.Net.Checksum.{checksum}
use njucn_lab.Router.Rtable.{RtEntry, longest_prefix_match}
use njucn_lab.Router.State.{Router}
use njucn_lab.Router.ArpCache.{arpcache_lookup}
use njucn_lab.Router.Arp.{iface_send_packet_by_arp}
use njucn_lab.Router.Arp.Frames.{by_arp_hit}
use njucn_lab.Router.Icmp.{ip_hdr_size, ip_daddr, next_hop, icmp_send_packet}
use njucn_lab.Router.Ip.Header.{HoldsHeader, refresh-cells, refresh-length, refresh-verifies}
use njucn_lab.Router.Ip.{
  handled, freed, ip_ttl, ip_forward_packet, decrement_ttl, refresh_checksum, route_packet,
}

-- The packet as it goes on.
abbrev pub outgoing : List ℕ → List ℕ
outgoing packet = refresh_checksum (decrement_ttl packet)

decrement_ttl-ttl :
    (packet : List ℕ)
    → 22 < length packet
    → ip_ttl (decrement_ttl packet) ≡ (ip_ttl packet + 255) % 256
unfolding decrement_ttl
decrement_ttl-ttl packet h = get_or-set_self packet 22 ((ip_ttl packet + 255) % 256) 0 h

-- A packet whose time runs out is reported to its source, freed, and written to after that.
pub forward_expired :
    (ip_dst : ℕ) (packet : List ℕ) (r : Router)
    → 22 < length packet
    → ip_ttl packet ≡ 1
    → ip_forward_packet ip_dst packet r ≡ freed (icmp_send_packet (decrement_ttl packet) 11 0 r)
unfolding ip_forward_packet
forward_expired ip_dst packet r h t = ground (arith, decrement_ttl-ttl packet h)

-- A packet that arrives with no time left is not stopped: its time goes round to 255 and it is
-- forwarded.
pub forward_zero_ttl :
    (ip_dst : ℕ) (packet : List ℕ) (r : Router)
    → 22 < length packet
    → ip_ttl packet ≡ 0
    → (ip_forward_packet ip_dst packet r
        ≡ handled (route_packet ip_dst (refresh_checksum (decrement_ttl packet)) r))
      × (ip_ttl (decrement_ttl packet) ≡ 255)
unfolding ip_forward_packet
forward_zero_ttl ip_dst packet r h t = ground (arith, decrement_ttl-ttl packet h)

forward_alive :
    (ip_dst : ℕ) (packet : List ℕ) (r : Router)
    → 22 < length packet
    → 2 ≤ ip_ttl packet
    → ip_ttl packet < 256
    → ip_forward_packet ip_dst packet r
      ≡ handled (route_packet ip_dst (refresh_checksum (decrement_ttl packet)) r)
unfolding ip_forward_packet
forward_alive ip_dst packet r h t t' = ground (arith, decrement_ttl-ttl packet h)

route_packet_known :
    (ip_dst : ℕ) (packet : List ℕ) (r : Router) (entry : RtEntry)
    → longest_prefix_match ip_dst r.rtable ≡ some entry
    → route_packet ip_dst packet r
      ≡ iface_send_packet_by_arp entry.iface (next_hop entry (ip_daddr packet)) packet r
unfolding route_packet
route_packet_known ip_dst packet r entry l = rw (l, route_packet)

-- The frame in which a packet goes on.
pub record IsForwarded (packet from to frame : List ℕ) : Type 0 where
  pub size : length frame ≡ length packet
  pub destination : (i : ℕ) → i < 6 → get_or frame i 0 ≡ get_or to i 0
  pub source : (i : ℕ) → i < 6 → get_or frame (6 + i) 0 ≡ get_or from i 0
  pub type : get16 frame 12 ≡ 0x0800
  pub one_less : ip_ttl frame + 1 ≡ ip_ttl packet
  pub sum : checksum (slice frame 14 (ip_hdr_size packet)) 0 ≡ 0
  pub rest :
      (i : ℕ) → 14 ≤ i → i ≢ 22 → ((i < 24) ⊎ (26 ≤ i)) → get_or frame i 0 ≡ get_or packet i 0

abbrev framed : List ℕ → List ℕ → List ℕ → List ℕ
framed packet from to = blit (blit (blit packet 6 from) 0 to) 12 (be16 0x0800)

framed-behind :
    (packet from to : List ℕ) (i : ℕ)
    → length from ≡ 6
    → length to ≡ 6
    → 14 ≤ i
    → get_or (framed packet from to) i 0 ≡ get_or packet i 0
framed-behind packet from to i f t h =
    get_or-blit_behind (blit (blit packet 6 from) 0 to) 12 (be16 0x0800) i 0 (omega (arith, h))
    ∙ get_or-blit_behind (blit packet 6 from) 0 to i 0 (omega (arith, h, t))
    ∙ get_or-blit_behind packet 6 from i 0 (omega (arith, h, f))

framed-drop :
    (packet from to : List ℕ)
    → length from ≡ 6
    → length to ≡ 6
    → drop 14 (framed packet from to) ≡ drop 14 packet
framed-drop packet from to f t =
    drop-blit (blit (blit packet 6 from) 0 to) 12 14 (be16 0x0800) (omega arith)
    ∙ drop-blit (blit packet 6 from) 0 14 to (omega (arith, t))
    ∙ drop-blit packet 6 14 from (omega (arith, f))

decrement-cells :
    (packet : List ℕ) (i : ℕ) → i ≢ 22 → get_or (decrement_ttl packet) i 0 ≡ get_or packet i 0
unfolding decrement_ttl
decrement-cells packet i h =
    get_or-set_ne packet 22 i ((ip_ttl packet + 255) % 256) 0 (λ e. h (sym e))

decrement-length : (packet : List ℕ) → length (decrement_ttl packet) ≡ length packet
unfolding decrement_ttl
decrement-length packet = length-set packet 22 ((ip_ttl packet + 255) % 256)

decrement-HoldsHeader :
    (packet : List ℕ)
    → HoldsHeader packet
    → (ip_hdr_size (decrement_ttl packet) ≡ ip_hdr_size packet) × HoldsHeader (decrement_ttl packet)
decrement-HoldsHeader packet h =
    let e = decrement-cells packet 14 (omega arith) in
    let ttl = decrement_ttl-ttl packet (omega (arith, h.ip_hdr, h.long)) in
    (
      omega (arith, e),
      record {
        ip_hdr = omega (arith, e, h.ip_hdr);
        long = omega (arith, e, h.long, decrement-length packet);
        all_bytes = λ i. elim (ℕ_discrete i 22) [
          | yes q ↦ rw q (omega (arith, ttl))
          | no q ↦ omega (arith, decrement-cells packet i q, h.all_bytes i)
        ];
      },
    )

outgoing-cells :
    (packet : List ℕ) (i : ℕ)
    → i ≢ 22
    → ((i < 24) ⊎ (26 ≤ i))
    → get_or (outgoing packet) i 0 ≡ get_or packet i 0
outgoing-cells packet i n h = refresh-cells (decrement_ttl packet) i h ∙ decrement-cells packet i n

outgoing-IsForwarded :
    (packet from to : List ℕ)
    → HoldsHeader packet
    → 2 ≤ ip_ttl packet
    → length from ≡ 6
    → length to ≡ 6
    → IsForwarded packet from to (framed (outgoing packet) from to)
outgoing-IsForwarded packet from to h time f t =
    let out = outgoing packet in
    let long : length out ≡ length packet =
      refresh-length (decrement_ttl packet) ∙ decrement-length packet in
    let two = blit out 6 from in
    let three = blit two 0 to in
    let l2 : length two ≡ length packet = length-blit out 6 from ∙ long in
    let l3 : length three ≡ length packet = length-blit two 0 to ∙ l2 in
    let (same, holds) = decrement-HoldsHeader packet h in
    record {
      size = length-blit three 12 (be16 0x0800) ∙ l3;
      destination = λ i l.
          get_or-blit_before three 12 (be16 0x0800) i 0 (omega (arith, l))
          ∙ get_or-blit_in two 0 to i i 0 (omega arith) (omega (arith, l, t))
              (omega (arith, t, l2, h.long, h.ip_hdr));
      source = λ i l.
          get_or-blit_before three 12 (be16 0x0800) (6 + i) 0 (omega (arith, l))
          ∙ get_or-blit_behind two 0 to (6 + i) 0 (omega (arith, t))
          ∙ get_or-blit_in out 6 from (6 + i) i 0 refl (omega (arith, l, f))
              (omega (arith, f, long, h.long, h.ip_hdr));
      type = omega (
        arith,
        get_or-blit_in three 12 (be16 0x0800) 12 0 0 refl (omega arith)
            (omega (arith, l3, h.long, h.ip_hdr)),
        get_or-blit_in three 12 (be16 0x0800) 13 1 0 refl (omega arith)
            (omega (arith, l3, h.long, h.ip_hdr)),
      );
      one_less = omega (
        arith,
        time,
        h.all_bytes 22,
        framed-behind out from to 22 f t (omega arith),
        refresh-cells (decrement_ttl packet) 22 (inl (omega arith)),
        decrement_ttl-ttl packet (omega (arith, h.ip_hdr, h.long)),
      );
      sum =
          ap (λ q. checksum (take (ip_hdr_size packet) q) 0) (framed-drop out from to f t)
          ∙ ap (λ n. checksum (slice out 14 n) 0) (sym same)
          ∙ refresh-verifies (decrement_ttl packet) holds;
      rest = λ i l n b. framed-behind out from to i f t l ∙ outgoing-cells packet i n b;
    }

-- A packet with time left whose next hop has a known hardware address goes out as one frame, and nothing
-- else changes. The next hop is the gateway of the longest match, or the destination in the packet where
-- that has none; the frame leaves by the interface of the match, from its hardware address to that of the
-- next hop. In it the packet has one hop less to go and a header that sums up to no error, and but for
-- these it is as it came.
pub forward_known :
    (ip_dst : ℕ) (packet : List ℕ) (r : Router) (entry : RtEntry) (mac : List ℕ)
    → HoldsHeader packet
    → 2 ≤ ip_ttl packet
    → length entry.iface.mac ≡ 6
    → length mac ≡ 6
    → longest_prefix_match ip_dst r.rtable ≡ some entry
    → arpcache_lookup (if entry.gw == 0 then ip_daddr packet else entry.gw) r ≡ some mac
    → (frame : List ℕ) × (ip_forward_packet ip_dst packet r
        ≡ handled
            (record r { sent = r.sent ++ (record { iface = entry.iface; frame = frame } ∷ []) }))
      × IsForwarded packet entry.iface.mac mac frame
forward_known ip_dst packet r entry mac h t f m l k =
    let daddr : ip_daddr (outgoing packet) ≡ ip_daddr packet = omega (
      arith,
      outgoing-cells packet 30 (omega arith) (inr (omega arith)),
      outgoing-cells packet 31 (omega arith) (inr (omega arith)),
      outgoing-cells packet 32 (omega arith) (inr (omega arith)),
      outgoing-cells packet 33 (omega arith) (inr (omega arith)),
    ) in
    (
      framed (outgoing packet) entry.iface.mac mac,
      forward_alive ip_dst packet r (omega (arith, h.long, h.ip_hdr)) t (h.all_bytes 22)
          ∙ ap handled (
              route_packet_known ip_dst (outgoing packet) r entry l
              ∙ by_arp_hit entry.iface (next_hop entry (ip_daddr (outgoing packet)))
                  (outgoing packet) mac r
                  (ap (λ d. arpcache_lookup (next_hop entry d) r) daddr ∙ k)),
      outgoing-IsForwarded packet entry.iface.mac mac h t f m,
    )
