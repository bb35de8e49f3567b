-- ===== src/Switch/Forward/Ports.antt =====
-- Where the frames of code-exp9/main.c and code-exp8/main.c go out.
use njucn_lab.Common.{
  ℕ, ◌≡◌, ◌≢◌, ◌⊎◌, refl, List, [], ◌∷◌, none, some, true, false, ◌==◌, if◌then◌else◌, arith, map,
}
use njucn_lab.Switch.MacTable.{Table, lookup_port, insert_mac_port}
use njucn_lab.Switch.Forward.{
  Send, broadcast_packet, ether_dhost, ether_shost, is_broadcast_mac, handle_packet,
}

-- The interfaces other than one, in their order.
abbrev pub others : ℕ → List ℕ → List ℕ
others iface [] = []
others iface (i ∷ is) = if i == iface then others iface is else i ∷ others iface is

abbrev pub sent_on : List ℕ → List ℕ → List Send
sent_on packet is = map (λ i. record { iface = i; packet = packet }) is

-- Flooding sends the frame once by each interface but the one that it came in by.
pub broadcast_packet_lem :
    (ifaces : List ℕ) (iface : ℕ) (packet : List ℕ)
    → broadcast_packet ifaces iface packet ≡ sent_on packet (others iface ifaces)
unfolding broadcast_packet
broadcast_packet_lem [] iface packet = refl
broadcast_packet_lem (i ∷ is) iface packet = ground (arith, broadcast_packet_lem is iface packet)

-- Every transmission of a list goes by another interface than `iface` and carries the frame `packet`.
abbrev pub Elsewhere : ℕ → List ℕ → List Send → Type 0
Elsewhere iface packet [] = Unit
Elsewhere iface packet (s ∷ ss) =
    (s.iface ≢ iface) × (s.packet ≡ packet) × Elsewhere iface packet ss

broadcast-Elsewhere :
    (ifaces : List ℕ) (iface : ℕ) (packet : List ℕ)
    → Elsewhere iface packet (broadcast_packet ifaces iface packet)
unfolding broadcast_packet
broadcast-Elsewhere [] iface packet = tt
broadcast-Elsewhere (i ∷ is) iface packet = ground (arith, broadcast-Elsewhere is iface packet)

-- The switch never sends a frame back by the interface that it came in by, and never changes one.
pub handle_packet-Elsewhere :
    (ifaces : List ℕ) (iface : ℕ) (packet : List ℕ) (now : ℕ) (t : Table)
    → Elsewhere iface packet (handle_packet ifaces iface packet now t).1
unfolding handle_packet
handle_packet-Elsewhere ifaces iface packet now t =
    ground (arith, broadcast-Elsewhere ifaces iface packet)

-- Where the table stands when the destination is looked up.
abbrev pub learned : ℕ → List ℕ → ℕ → Table → Table
learned iface packet now t = insert_mac_port (ether_shost packet) iface now t

-- A frame for an address, not the broadcast one, that is known behind another interface goes out once,
-- by that interface alone.
pub handle_packet_unicast :
    (ifaces : List ℕ) (iface : ℕ) (packet : List ℕ) (now : ℕ) (t : Table) (p : ℕ)
    → is_broadcast_mac (ether_dhost packet) ≡ false
    → lookup_port (ether_dhost packet) (learned iface packet now t) ≡ some p
    → p ≢ iface
    → (handle_packet ifaces iface packet now t).1 ≡ sent_on packet (p ∷ [])
unfolding handle_packet
handle_packet_unicast ifaces iface packet now t p h k ne = rw (h, k, handle_packet) (ground arith)

-- Every other frame is flooded: one for the broadcast address, for an address that is not known, and
-- also one for an address behind its own interface.
pub handle_packet_floods :
    (ifaces : List ℕ) (iface : ℕ) (packet : List ℕ) (now : ℕ) (t : Table)
    → (is_broadcast_mac (ether_dhost packet) ≡ true)
      ⊎ (lookup_port (ether_dhost packet) (learned iface packet now t) ≡ none)
      ⊎ (lookup_port (ether_dhost packet) (learned iface packet now t) ≡ some iface)
    → (handle_packet ifaces iface packet now t).1 ≡ sent_on packet (others iface ifaces)
unfolding handle_packet
handle_packet_floods ifaces iface packet now t h =
    ground (arith, broadcast_packet_lem ifaces iface packet)
