-- ===== src/Mospf/Invariant/Routing.antt =====
-- spf_run in the states that the daemon comes to.
use njucn_lab.Common.{ℕ, ◌≡◌, refl, ap, ◌∙◌, List, ◌∷◌, ◌++◌, some}
use njucn_lab.Router.Rtable.{RtEntry, load_rtable, clear_rtable}
use njucn_lab.Router.Rtable.Longest.{load_rtable-append, clear_rtable-nil}
use njucn_lab.Mospf.Instance.{NbrIface, Instance}
use njucn_lab.Mospf.Spf.{Node, all_nodes}
use njucn_lab.Mospf.Spf.Names.{NoneNamed}
use njucn_lab.Mospf.Spf.Shortest.{IsShortest}
use njucn_lab.Mospf.Routes.{no_pre, mospf_dijkstra, spf_run}
use njucn_lab.Mospf.Routes.Table.{IsRouted}
use njucn_lab.Mospf.Routes.Correct.{IsNamed, mospf_dijkstra_lem}
use njucn_lab.Mospf.Lsu.{mospf_init}
use njucn_lab.Mospf.Invariant.Steps.{Run, NoneCounted, Run-IsWell_from_init}

loaded : (new old : List RtEntry) → (load_rtable new (clear_rtable old)).1 ≡ new
loaded new old =
    ap (λ t. t.1) (load_rtable-append new (clear_rtable old))
    ∙ ap (λ t. t ++ new) (clear_rtable-nil old)

-- Nobody whom the router knows is named `k`.
abbrev pub Unnamed : ℕ → Instance → Type 0
Unnamed k t = NoneNamed k t.router_id t.mospf_db t.iface_list

spf_run-table :
    (kernel : List RtEntry) (t : Instance) (table : List RtEntry)
    → mospf_dijkstra t.router_id t.mospf_db t.iface_list kernel ≡ some table
    → spf_run kernel t ≡ some (record t { router = record t.router { rtable = table } })
unfolding spf_run
spf_run-table kernel t table e =
    rw (spf_run, e)
      (ap (λ x. some (record t { router = record t.router { rtable = x } }))
        (loaded table t.router.rtable))

-- In every state that the daemon comes to from mospf_init, if nobody it knows is named 0.0.0.0 or
-- 255.255.255.255, spf_run ends. It changes the routing table alone, to the routes of the kernel and
-- those that mospf_dijkstra finds, and forgets all earlier ones. With the costs and predecessors of
-- shortest walks at hand, each route found goes to a network that another router advertises, through the
-- neighbour where a shortest walk to that router begins, and each network that a router within reach
-- advertises has a route.
pub Run-spf_run :
    (kernel : List RtEntry) (first : NbrIface) (others : List NbrIface) (s t : Instance)
    → NoneCounted (first ∷ others)
    → Run (mospf_init first others s) t
    → Unnamed 0 t
    → Unnamed no_pre t
    → (table : List RtEntry) × (zs : List Node) × IsShortest t.mospf_db
        (all_nodes t.router_id t.mospf_db t.iface_list)
        zs
      × (spf_run kernel t ≡ some (record t { router = record t.router { rtable = table } }))
      × IsRouted t.router_id t.iface_list t.mospf_db
          (all_nodes t.router_id t.mospf_db t.iface_list)
          zs
          t.mospf_db
          kernel
          (some table)
Run-spf_run kernel first others s t h r zero ones =
    let w = Run-IsWell_from_init first others s t h r in
    let named : IsNamed t.router_id t.mospf_db t.iface_list = record {
      distinct = w.one_entry;
      no_own = w.no_own;
      none_zero = zero;
      none_ones = ones;
    } in
    let (zs, shortest, d) = mospf_dijkstra_lem t.router_id t.mospf_db t.iface_list kernel named in
    (
      d.table,
      zs,
      shortest,
      spf_run-table kernel t d.table d.returned,
      record { table = d.table; returned = refl; extends = d.extends; complete = d.complete },
    )
