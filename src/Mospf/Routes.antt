-- ===== src/Mospf/Routes.antt =====
-- mospf_dijkstra of code-exp7/mospf_daemon.c from its routing table on, and spf_run.
pub mod Lookup
pub mod NextHop
pub mod Table
pub mod Correct
use njucn_lab.Common.{
  ℕ, zero, suc, ◌+◌, List, [], ◌∷◌, ◌++◌, Option, none, some, Bool, true, false, ◌&&◌, ◌||◌, ◌>>=◌,
  ◌==◌, if◌then◌else◌,
}
use njucn_lab.Router.Rtable.{Iface, RtEntry, new_rt_entry, load_rtable, clear_rtable}
use njucn_lab.Mospf.Database.{DbEntry, Lsa}
use njucn_lab.Mospf.Instance.{Nbr, NbrIface, Instance}
use njucn_lab.Mospf.Spf.{Node, node_at, int_max, find_node, shortest_paths}

-- node->pre == -1, where `pre` is a u32.
abbrev pub no_pre : ℕ
no_pre = 0xffffffff

-- The way back from a router to the neighbour through which it is reached; `none` is a loop that has
-- not ended within the fuel.
unfoldable pub trace_back : ℕ → ℕ → List Node → ℕ → Option ℕ
trace_back zero router_id nodes curr = none
trace_back (suc fuel) router_id nodes curr = elim (find_node 0 curr nodes) [
  | none ↦ some curr
  | some v ↦
      let pre = (node_at nodes v).pre in
      let rest = trace_back fuel router_id nodes pre in
      if pre == router_id || pre == no_pre then some curr else rest
]

-- Costs fall on the way, and are INT_MAX at most.
abbrev pub hops : ℕ
hops = int_max + 2

unfoldable pub find_nbr : ℕ → List Nbr → Option Nbr
find_nbr rid [] = none
find_nbr rid (n ∷ ns) = let rest = find_nbr rid ns in if n.nbr_id == rid then some n else rest

-- The first neighbour of that number, with its interface.
unfoldable pub nbr_of : ℕ → List NbrIface → Option (Nbr × Iface)
nbr_of rid [] = none
nbr_of rid (i ∷ is) =
    let rest = nbr_of rid is in
    elim (find_nbr rid i.nbr_list) [ none ↦ rest | some n ↦ some (n, i.iface) ]

unfoldable pub has_route : ℕ → ℕ → List RtEntry → Bool
has_route dest mask [] = false
has_route dest mask (e ∷ es) = (e.dest == dest && e.mask == mask) || has_route dest mask es

-- The route to a network through the neighbour `prev`.
unfoldable pub add_route : List NbrIface → ℕ → Lsa → List RtEntry → List RtEntry
add_route ifaces prev l routing_table = elim (nbr_of prev ifaces) [
  | none ↦ routing_table
  | some (n, iface) ↦
      if has_route l.network l.mask routing_table
      then routing_table
      else routing_table ++ (new_rt_entry l.network l.mask n.nbr_ip iface ∷ [])
]

-- The networks that the router `rid` advertises.
unfoldable pub lsa_routes :
    ℕ → List NbrIface → List Node → ℕ → List Lsa → List RtEntry → Option (List RtEntry)
lsa_routes router_id ifaces nodes rid [] routing_table = some routing_table
lsa_routes router_id ifaces nodes rid (l ∷ ls) routing_table = do
  prev ← trace_back hops router_id nodes rid
  lsa_routes router_id ifaces nodes rid ls (add_route ifaces prev l routing_table)

unfoldable pub db_routes :
    ℕ → List NbrIface → List Node → List DbEntry → List RtEntry → Option (List RtEntry)
db_routes router_id ifaces nodes [] routing_table = some routing_table
db_routes router_id ifaces nodes (e ∷ es) routing_table =
    let skipped = db_routes router_id ifaces nodes es routing_table in
    let routed =
      lsa_routes router_id ifaces nodes e.rid e.array routing_table
      >>= db_routes router_id ifaces nodes es in
    if e.rid == router_id then skipped else routed

unfoldable pub mospf_dijkstra :
    ℕ → List DbEntry → List NbrIface → List RtEntry → Option (List RtEntry)
mospf_dijkstra router_id db ifaces routing_table = do
  nodes ← shortest_paths router_id db ifaces
  db_routes router_id ifaces nodes db routing_table

-- `kernel` is what read_kernel_rtable finds.
unfoldable pub spf_run : List RtEntry → Instance → Option Instance
spf_run kernel s = do
  routing_table ← mospf_dijkstra s.router_id s.mospf_db s.iface_list kernel
  some (record s {
    router = record s.router {
      rtable = (load_rtable routing_table (clear_rtable s.router.rtable)).1;
    };
  })
