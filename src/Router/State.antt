-- ===== src/Router/State.antt =====
-- What the functions of the router in code-exp5 share: the ARP cache (include/arpcache.h), the routing
-- table, and the world outside: the time, rand(), and the frames that went out.
use njucn_lab.Common.{ℕ, ◌==◌, List, [], ◌∷◌, ◌++◌, Bool}
use njucn_lab.Router.Rtable.{Iface, RtEntry}

-- `struct arp_req`: packets that wait for the hardware address of one neighbour.
pub record ArpReq : Type 0 where
  pub iface : Iface
  pub ip4 : ℕ
  pub sent : ℕ
  pub retries : ℕ
  pub cached_packets : List (List ℕ)

-- `struct arp_cache_entry`.
pub record ArpEntry : Type 0 where
  pub ip4 : ℕ
  pub mac : List ℕ
  pub added : ℕ
  pub valid : Bool

-- A frame that went out, with the interface that sent it.
pub record Sent : Type 0 where
  pub iface : Iface
  pub frame : List ℕ

pub record Router : Type 0 where
  pub rtable : List RtEntry
  pub entries : List ArpEntry
  pub req_list : List ArpReq
  pub now : ℕ
  -- The i-th result of rand(), and how many were taken.
  pub rand : ℕ → ℕ
  pub draws : ℕ
  -- Oldest first.
  pub sent : List Sent

-- iface_send_packet hands the frame to the socket of the interface.
unfoldable pub iface_send_packet : Iface → List ℕ → Router → Router
iface_send_packet iface frame r = record r {
  sent = r.sent ++ (record { iface = iface; frame = frame } ∷ []);
}

-- Interfaces are compared by address in the source; `index` is unique.
abbrev pub same_iface : Iface → Iface → Bool
same_iface i j = i.index == j.index
