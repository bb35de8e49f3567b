-- ===== src/Switch/Forward.antt =====
-- code-exp9/main.c and broadcast.c: what the switch does with a frame. A frame is its bytes, and a transmission the interface with them.
pub mod Ports
pub mod Learning
mod Examples
use njucn_lab.Common.{
  ℕ, List, [], ◌∷◌, Bool, Option, none, some, slice, replicate, not, ◌==◌, ◌&&◌, if◌then◌else◌,
  true, false,
}
use njucn_lab.Switch.Hash.{mac_eq}
use njucn_lab.Switch.MacTable.{Table, lookup_port, insert_mac_port, sweep_aged_mac_port_entry}

pub record Send : Type 0 where
  pub iface : ℕ
  pub packet : List ℕ

-- The list is `instance->iface_list`.
pub broadcast_packet : List ℕ → ℕ → List ℕ → List Send
broadcast_packet [] iface packet = []
broadcast_packet (i ∷ is) iface packet =
    let rest = broadcast_packet is iface packet in
    if not (i == iface) then record { iface = i; packet = packet } ∷ rest else rest

abbrev pub ether_dhost : List ℕ → List ℕ
ether_dhost packet = slice packet 0 6

abbrev pub ether_shost : List ℕ → List ℕ
ether_shost packet = slice packet 6 6

unfoldable pub is_broadcast_mac : List ℕ → Bool
unfolding mac_eq
is_broadcast_mac mac = mac_eq mac (replicate 6 0xff)

-- `tx_iface` found, and not the interface that the frame came in by.
forward : List ℕ → ℕ → List ℕ → Option ℕ → List Send
forward ifaces iface packet none = broadcast_packet ifaces iface packet
forward ifaces iface packet (some tx_iface) =
    if not (tx_iface == iface)
    then record { iface = tx_iface; packet = packet } ∷ []
    else broadcast_packet ifaces iface packet

-- The source address is learned before the destination is looked up.
pub handle_packet : List ℕ → ℕ → List ℕ → ℕ → Table → Table × List Send
unfolding forward
handle_packet ifaces iface packet now t =
    let t' = insert_mac_port (ether_shost packet) iface now t in
    (
      t',
      if is_broadcast_mac (ether_dhost packet)
          then broadcast_packet ifaces iface packet
          else forward ifaces iface packet (lookup_port (ether_dhost packet) t'),
    )

-- What the two threads of the switch do, one lock at a time: a frame is handled, or the sweeper runs.
pub data Event : Type 0 where
  receive : ℕ → List ℕ → ℕ → Event
  sweep : ℕ → Event

pub step : List ℕ → Table → Event → Table
step ifaces t (receive iface packet now) = (handle_packet ifaces iface packet now t).0
step ifaces t (sweep now) = (sweep_aged_mac_port_entry now t).1

pub run : List ℕ → Table → List Event → Table
run ifaces t [] = t
run ifaces t (e ∷ es) = run ifaces (step ifaces t e) es
