-- ===== src/Router/ArpCache/Request.antt =====
-- arp_send_request of code-exp5/arp.c, and the frame that requests and replies share.
use njucn_lab.Common.{ℕ, List, [], ◌∷◌, ◌++◌, replicate}
use njucn_lab.Net.Bytes.{be16, be32}
use njucn_lab.Router.Rtable.{Iface}
use njucn_lab.Router.State.{Router, iface_send_packet}

-- Ethernet header (destination, source, ETH_P_ARP), then struct ether_arp: hardware type 1, protocol
-- ETH_P_IP, lengths 6 and 4, the operation, and the sender's and the target's two addresses.
unfoldable pub arp_frame : List ℕ → Iface → ℕ → List ℕ → List ℕ → List ℕ
arp_frame dhost iface op tha tpa =
    dhost
    ++ (iface.mac
        ++ (be16 0x0806
            ++ (be16 1
                ++ (be16 0x0800
                    ++ (6 ∷ 4 ∷ []
                        ++ (be16 op ++ (iface.mac ++ (be32 iface.ip ++ (tha ++ tpa)))))))))

-- The target's hardware address is not known: it is zero, and the frame is broadcast.
unfoldable pub arp_send_request : Iface → ℕ → Router → Router
unfolding iface_send_packet arp_frame
arp_send_request iface dst_ip r =
    iface_send_packet iface (arp_frame (replicate 6 0xff) iface 1 (replicate 6 0) (be32 dst_ip)) r
