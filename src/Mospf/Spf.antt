-- ===== src/Mospf/Spf.antt =====
-- mospf_dijkstra of code-exp7/mospf_daemon.c up to its routing table: the nodes and the search for
-- shortest paths. A pointer to a node is its place in the list of all nodes.
pub mod Start
pub mod Names
pub mod Present
pub mod Nodes
pub mod Walks
pub mod Rounds
pub mod Correct
pub mod Shortest
use njucn_lab.Common.{
  ℕ, zero, suc, ◌+◌, ◌-◌, ◌^◌, List, [], ◌∷◌, ◌++◌, map, Option, none, some, Bool, true, false, not,
  ◌&&◌, length, get_or, set, ltb, ◌==◌, if◌then◌else◌,
}
use njucn_lab.Mospf.Database.{DbEntry, Lsa}
use njucn_lab.Mospf.Instance.{Nbr, NbrIface}

-- INT_MAX
abbrev pub int_max : ℕ
int_max = 2147483647

pub record Node : Type 0 where
  pub rid : ℕ
  pub cost : ℕ
  pub pre : ℕ
  pub visited : Bool

abbrev pub no_node : Node
no_node = record { rid = 0; cost = int_max; pre = 0; visited = false }

abbrev pub node_at : List Node → ℕ → Node
node_at nodes i = get_or nodes i no_node

-- 1. A node for each entry of the database.
unfoldable pub db_nodes : ℕ → List DbEntry → List Node
db_nodes router_id [] = []
db_nodes router_id (e ∷ es) =
    record {
      rid = e.rid;
      cost = if e.rid == router_id then 0 else int_max;
      pre = 0;
      visited = false;
    }
    ∷ db_nodes router_id es

-- The first entry of a router.
unfoldable pub find_entry : ℕ → List DbEntry → Option DbEntry
find_entry rid [] = none
find_entry rid (e ∷ es) = let rest = find_entry rid es in if e.rid == rid then some e else rest

-- 2. The router itself, if it has no entry.
unfoldable pub add_self : ℕ → List DbEntry → List Node → List Node
add_self router_id db nodes = elim (find_entry router_id db) [
  | some e ↦ nodes
  | none ↦ nodes ++ (record { rid = router_id; cost = 0; pre = 0; visited = false } ∷ [])
]

-- 3. A neighbour: its node, if there is one, comes to cost 1 unless it is cheaper.
unfoldable pub add_nbr : ℕ → ℕ → List Node → List Node
add_nbr router_id nbr_id [] =
    record { rid = nbr_id; cost = 1; pre = router_id; visited = false } ∷ []
add_nbr router_id nbr_id (x ∷ xs) =
    let rest = add_nbr router_id nbr_id xs in
    if x.rid == nbr_id
    then (if ltb 1 x.cost then record x { cost = 1; pre = router_id } else x) ∷ xs
    else x ∷ rest

unfoldable pub add_nbrs : ℕ → List Nbr → List Node → List Node
add_nbrs router_id [] nodes = nodes
add_nbrs router_id (n ∷ ns) nodes = add_nbrs router_id ns (add_nbr router_id n.nbr_id nodes)

unfoldable pub add_all_nbrs : ℕ → List NbrIface → List Node → List Node
add_all_nbrs router_id [] nodes = nodes
add_all_nbrs router_id (i ∷ is) nodes =
    add_all_nbrs router_id is (add_nbrs router_id i.nbr_list nodes)

unfoldable pub all_nodes : ℕ → List DbEntry → List NbrIface → List Node
all_nodes router_id db ifaces =
    add_all_nbrs router_id ifaces (add_self router_id db (db_nodes router_id db))

-- 4. The first unvisited node of least cost below `min_cost`: `i` is the place of the list's head, and
-- `u` the best so far.
unfoldable pub pick_min : ℕ → ℕ → Option ℕ → List Node → Option ℕ
pick_min i min_cost u [] = u
pick_min i min_cost u (x ∷ xs) =
    let better = not x.visited && ltb x.cost min_cost in
    pick_min (suc i) (if better then x.cost else min_cost) (if better then some i else u) xs

-- The place of the first node of a router, counted from `i`.
unfoldable pub find_node : ℕ → ℕ → List Node → Option ℕ
find_node i rid [] = none
find_node i rid (x ∷ xs) =
    let rest = find_node (suc i) rid xs in if x.rid == rid then some i else rest

-- The body of the loop over the links of `u`.
unfoldable pub relax : ℕ → ℕ → List Node → Lsa → List Node
relax u_cost u_rid nodes l = elim (find_node 0 l.rid nodes) [
  | none ↦ nodes
  | some v ↦
      let x = node_at nodes v in
      if not x.visited && ltb (u_cost + 1) x.cost
      then set nodes v (record x { cost = u_cost + 1; pre = u_rid })
      else nodes
]

unfoldable pub relax_all : ℕ → ℕ → List Lsa → List Node → List Node
relax_all u_cost u_rid [] nodes = nodes
relax_all u_cost u_rid (l ∷ ls) nodes = relax_all u_cost u_rid ls (relax u_cost u_rid nodes l)

-- The links of a router's entry; none if it has no entry.
abbrev pub links : ℕ → List DbEntry → List Lsa
links rid db = elim (find_entry rid db) [ none ↦ [] | some e ↦ e.array ]

-- A round of the loop, with the node that was picked.
unfoldable pub visit : List DbEntry → ℕ → List Node → List Node
visit db u nodes =
    let x = node_at nodes u in
    relax_all x.cost x.rid (links x.rid db) (set nodes u (record x { visited = true }))

abbrev pub picked : List Node → Option ℕ
picked nodes = pick_min 0 int_max none nodes

-- The loop; `none` is a loop that has not ended within the fuel.
unfoldable pub dijkstra_loop : ℕ → List DbEntry → List Node → Option (List Node)
dijkstra_loop zero db nodes = none
dijkstra_loop (suc fuel) db nodes = elim (picked nodes) [
  | none ↦ some nodes
  | some u ↦ dijkstra_loop fuel db (visit db u nodes)
]

-- Each round visits one more node.
unfoldable pub shortest_paths : ℕ → List DbEntry → List NbrIface → Option (List Node)
shortest_paths router_id db ifaces =
    let nodes = all_nodes router_id db ifaces in dijkstra_loop (length nodes + 1) db nodes
