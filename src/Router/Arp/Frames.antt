-- ===== src/Router/Arp/Frames.antt =====
-- The frames of code-exp5/arp.c.
use njucn_lab.Common.{ℕ, ◌≡◌, List, [], ◌∷◌, ◌++◌, some, none, blit}
use njucn_lab.Net.Bytes.{be16}
use njucn_lab.Router.Rtable.{Iface}
use njucn_lab.Router.State.{Router, iface_send_packet}
use njucn_lab.Router.ArpCache.{arpcache_lookup, arpcache_append_packet}
use njucn_lab.Router.ArpCache.Request.{arp_send_request}
use njucn_lab.Router.Arp.{iface_send_packet_by_arp}

-- To a known neighbour the packet goes out at once, with both addresses and the type filled in.
pub by_arp_hit :
    (iface : Iface) (dst_ip : ℕ) (packet mac : List ℕ) (r : Router)
    → arpcache_lookup dst_ip r ≡ some mac
    → iface_send_packet_by_arp iface dst_ip packet r ≡ record r {
      sent =
          r.sent
          ++ (record {
            iface = iface;
            frame = blit (blit (blit packet 6 iface.mac) 0 mac) 12 (be16 0x0800);
          }
              ∷ []);
    }
unfolding iface_send_packet_by_arp iface_send_packet
by_arp_hit iface dst_ip packet mac r h = rw (h, iface_send_packet_by_arp)

-- To an unknown one the packet waits.
pub by_arp_miss :
    (iface : Iface) (dst_ip : ℕ) (packet : List ℕ) (r : Router)
    → arpcache_lookup dst_ip r ≡ none
    → iface_send_packet_by_arp iface dst_ip packet r
      ≡ arp_send_request iface dst_ip
          (arpcache_append_packet iface dst_ip (blit packet 6 iface.mac) r)
unfolding iface_send_packet_by_arp
by_arp_miss iface dst_ip packet r h = rw (h, iface_send_packet_by_arp)
