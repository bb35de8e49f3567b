-- ===== src/Mospf/Routes/Correct.antt =====
-- mospf_dijkstra as a whole.
use mathlib.Core.List.{Memᴰ}
use native.Mathlib.Decide.{dec_lt}
use njucn_lab.Common.{ℕ, ◌<◌, ◌≡◌, ◌≢◌, sym, ap, subst, ◌∙◌, List, some, ◌>>=◌, length, arith}
use njucn_lab.Router.Rtable.{RtEntry}
use njucn_lab.Mospf.Database.{DbEntry}
use njucn_lab.Mospf.Instance.{NbrIface}
use njucn_lab.Mospf.Spf.{Node, node_at, int_max, find_node, all_nodes}
use njucn_lab.Mospf.Spf.Nodes.{one_place}
use njucn_lab.Mospf.Spf.Start.{AllStart-all_nodes}
use njucn_lab.Mospf.Spf.Names.{
  NoEntry, EntriesDistinct, NoneNamed, NodesDistinct, find_node-found, NodesDistinct-all_nodes,
  NoNode-all_nodes,
}
use njucn_lab.Mospf.Spf.Present.{HasNode-all_nodes}
use njucn_lab.Mospf.Spf.Shortest.{IsShortest, shortest_paths-end}
use njucn_lab.Mospf.Routes.{no_pre, trace_back, hops, db_routes, mospf_dijkstra}
use njucn_lab.Mospf.Routes.Lookup.{nbr_of-missing}
use njucn_lab.Mospf.Routes.NextHop.{Settled, trace_back-reached, trace_back-unreached, nbr_of-hop}
use njucn_lab.Mospf.Routes.Table.{Way, leads, fails, IsRouted, db_routes-IsRouted}

-- The database, the router and its neighbours: routers have one entry each, the router has none of its
-- own, and nobody has the numbers 0.0.0.0 and 255.255.255.255.
pub record IsNamed (r : ℕ) (db : List DbEntry) (is : List NbrIface) : Type 0 where
  pub distinct : EntriesDistinct db
  pub no_own : NoEntry r db
  pub none_zero : NoneNamed 0 r db is
  pub none_ones : NoneNamed no_pre r db is

-- Names tell nodes apart.
one_node :
    (xs : List Node) (i j : ℕ)
    → NodesDistinct xs
    → i < length xs
    → j < length xs
    → (node_at xs i).rid ≡ (node_at xs j).rid
    → i ≡ j
one_node xs i j d l m e =
    one_place (find_node-found i xs d l) (ap (λ k. find_node 0 k xs) e ∙ find_node-found j xs d m)

module _ (r : ℕ) (is : List NbrIface) (db : List DbEntry) (named : IsNamed r db is) where
  Settled-all_nodes :
      (zs : List Node)
      → IsShortest db (all_nodes r db is) zs
      → Settled r is db (all_nodes r db is) zs
  Settled-all_nodes zs h = record {
    start = AllStart-all_nodes r is db;
    shortest = h;
    distinct = NodesDistinct-all_nodes r db is named.distinct;
    no_sentinel = NoNode-all_nodes no_pre r db is named.none_ones;
  }

  Way-hops :
      (zs : List Node)
      → IsShortest db (all_nodes r db is) zs
      → (e : DbEntry) → Memᴰ e db
      → e.rid ≢ r
      → (hop : ℕ) × (trace_back hops r zs e.rid ≡ some hop)
        × Way r is db (all_nodes r db is) zs e hop
  Way-hops zs h e m o =
      let xs = all_nodes r db is in
      let s = Settled-all_nodes zs h in
      let (j, l, name, _) = HasNode-all_nodes r e db is m in
      let back = ap (trace_back hops r zs) (sym name) in
      elim (dec_lt (node_at zs j).cost int_max) [
        | yes f ↦
            let (hop, q, w) =
              trace_back-reached r is db xs zs s hops j (omega (arith, f)) l f
                (λ p. o (sym name ∙ p)) in
            let (t, known) =
              nbr_of-hop r is db xs zs s j hop w named.none_zero.router named.no_own in
            (hop, back ∙ q, leads j name w t known)
        | no f ↦ (
          0,
          back
              ∙ trace_back-unreached r is db xs zs s int_max j l (omega (arith, f))
                  named.none_zero.router (NoNode-all_nodes 0 r db is named.none_zero),
          fails (nbr_of-missing 0 is named.none_zero.nbrs) (λ w.
              let p : w.node ≡ j = one_node xs w.node j s.distinct w.inside l (w.name ∙ sym name) in
              f (
                omega (
                  arith,
                  h.least w.node w.cost w.walk w.finite,
                  ap (λ k. (node_at zs k).cost) p,
                  w.finite,
                ))),
        )
      ]

-- The routes that are computed, when routers have one entry each, this router has none of its own, and
-- nobody is named 0.0.0.0 or 255.255.255.255: mospf_dijkstra always ends; it appends to the table it is
-- given, and only routes to networks that had none before; each of them goes to a network that another
-- router advertises, through the neighbour where a shortest walk to that router begins; and each network
-- that a router within reach advertises has a route at the end.
pub mospf_dijkstra_lem :
    (r : ℕ) (db : List DbEntry) (is : List NbrIface) (table : List RtEntry)
    → IsNamed r db is
    → (zs : List Node) × IsShortest db (all_nodes r db is) zs
      × IsRouted r is db (all_nodes r db is) zs db table (mospf_dijkstra r db is table)
unfolding mospf_dijkstra
mospf_dijkstra_lem r db is table named =
    let xs = all_nodes r db is in
    let (zs, e, h) = shortest_paths-end r db is in
    (
      zs,
      h,
      subst (IsRouted r is db xs zs db table)
          (sym (ap (λ o. o >>= (λ nodes. db_routes r is nodes db table)) e))
          (db_routes-IsRouted r is db xs zs (Way-hops r is db named zs h) db table (λ x m. m)),
    )
