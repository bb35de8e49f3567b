-- ===== src/Switch/Hub.antt =====
-- code-exp8/main.c and broadcast.c: the hub, which floods every frame.
use njucn_lab.Common.{ℕ, ◌≡◌, List, [], ◌∷◌, not, ◌==◌, if◌then◌else◌, refl, arith}
use njucn_lab.Switch.Forward.{Send}
use njucn_lab.Switch.Forward.Ports.{others, sent_on}

-- The list is `instance->iface_list`.
broadcast_packet : List ℕ → ℕ → List ℕ → List Send
broadcast_packet [] iface packet = []
broadcast_packet (tmp ∷ is) iface packet =
    let rest = broadcast_packet is iface packet in
    if not (tmp == iface) then record { iface = tmp; packet = packet } ∷ rest else rest

pub handle_packet : List ℕ → ℕ → List ℕ → List Send
handle_packet ifaces iface packet = broadcast_packet ifaces iface packet

broadcast_packet_lem :
    (ifaces : List ℕ) (iface : ℕ) (packet : List ℕ)
    → broadcast_packet ifaces iface packet ≡ sent_on packet (others iface ifaces)
unfolding broadcast_packet
broadcast_packet_lem [] iface packet = refl
broadcast_packet_lem (i ∷ is) iface packet = ground (arith, broadcast_packet_lem is iface packet)

-- The hub sends every frame, unchanged and once, by each interface but the one that it came in by.
pub hub_floods :
    (ifaces : List ℕ) (iface : ℕ) (packet : List ℕ)
    → handle_packet ifaces iface packet ≡ sent_on packet (others iface ifaces)
unfolding handle_packet
hub_floods ifaces iface packet = broadcast_packet_lem ifaces iface packet
