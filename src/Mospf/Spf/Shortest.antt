-- ===== src/Mospf/Spf/Shortest.antt =====
-- The search ends, and then the costs are those of the shortest walks.
use njucn_lab.Common.{
  ℕ, zero, suc, ◌+◌, ◌≤◌, ◌<◌, ◌≡◌, inl, inr, refl, ap, ◌∙◌, List, [], ◌∷◌, some, true, false,
  Bool-cases, length, set, arith, if◌then◌else◌,
}
use njucn_lab.Mospf.Database.{DbEntry, Lsa}
use njucn_lab.Mospf.Instance.{NbrIface}
use njucn_lab.Mospf.Spf.{
  Node, node_at, int_max, links, relax, relax_all, visit, all_nodes, dijkstra_loop, shortest_paths,
}
use njucn_lab.Mospf.Spf.Nodes.{relax-IsRelaxed, AllAtLeast, picked_lem}
use njucn_lab.Mospf.Spf.Walks.{Walk, starts, goes_on, Origin, unchanged, SameNames, Inv}
use njucn_lab.Mospf.Spf.Rounds.{same_visited}
use njucn_lab.Mospf.Spf.Start.{AllStart, IsStart-le, IsStart-fresh, AllStart-all_nodes}
use njucn_lab.Mospf.Spf.Present.{IsGraph, all_nodes-IsGraph}
use njucn_lab.Mospf.Spf.Correct.{Inv-visit}

-- The number of nodes that are not visited.
abbrev unvisited : List Node → ℕ
unvisited [] = 0
unvisited (x ∷ xs) = (if x.visited then 0 else 1) + unvisited xs

unvisited-le : (xs : List Node) → unvisited xs ≤ length xs
unvisited-le [] = omega arith
unvisited-le (x ∷ xs) = ground (arith, unvisited-le xs)

unvisited-same :
    (xs ys : List Node)
    → length ys ≡ length xs
    → ((j : ℕ) → (node_at ys j).visited ≡ (node_at xs j).visited)
    → unvisited ys ≡ unvisited xs
unvisited-same [] [] e h = refl
unvisited-same [] (y ∷ ys) e h = absurd (omega (arith, e))
unvisited-same (x ∷ xs) [] e h = absurd (omega (arith, e))
unvisited-same (x ∷ xs) (y ∷ ys) e h = rw (h 0) (
    ap (λ k. (if x.visited then 0 else 1) + k)
      (unvisited-same xs ys (omega (arith, e)) (λ j. h (suc j))))

unvisited-set :
    (xs : List Node) (u : ℕ) (y : Node)
    → u < length xs
    → (node_at xs u).visited ≡ false
    → y.visited ≡ true
    → unvisited (set xs u y) + 1 ≡ unvisited xs
unvisited-set [] u y l f v = absurd (omega (arith, l))
unvisited-set (x ∷ xs) zero y l f v = ground arith
unvisited-set (x ∷ xs) (suc u) y l f v = ground (arith, unvisited-set xs u y (omega (arith, l)) f v)

unvisited-relax_all :
    (c r : ℕ) (ls : List Lsa) (xs : List Node) → unvisited (relax_all c r ls xs) ≡ unvisited xs
unfolding relax_all
unvisited-relax_all c r [] xs = refl
unvisited-relax_all c r (l ∷ ls) xs =
    let d = relax-IsRelaxed c r xs l in
    unvisited-relax_all c r ls (relax c r xs l)
    ∙ unvisited-same xs (relax c r xs l) d.size (same_visited d)

unvisited-visit :
    (db : List DbEntry) (u : ℕ) (xs : List Node)
    → u < length xs
    → (node_at xs u).visited ≡ false
    → unvisited (visit db u xs) + 1 ≡ unvisited xs
unfolding visit
unvisited-visit db u xs l f =
    let x = node_at xs u in
    omega (
      arith,
      unvisited-relax_all x.cost x.rid (links x.rid db) (set xs u (record x { visited = true })),
      unvisited-set xs u (record x { visited = true }) l f refl,
    )

-- The nodes with which the search ends: their costs are those of the shortest walks, and their
-- predecessors are the last but one nodes of such walks.
pub record IsShortest (db : List DbEntry) (xs zs : List Node) : Type 0 where
  pub same : SameNames db xs zs
  pub attained : (j : ℕ) → (node_at zs j).cost < int_max → Walk db xs j (node_at zs j).cost
  pub least : (j k : ℕ) → Walk db xs j k → k < int_max → (node_at zs j).cost ≤ k
  pub origin : (j : ℕ) → Origin db xs zs j

module _ (db : List DbEntry) (xs : List Node) where
  least_cost :
      {zs : List Node}
      → Inv db xs zs
      → AllAtLeast int_max zs
      → (j k : ℕ) → Walk db xs j k
      → k < int_max
      → (node_at zs j).cost ≤ k
  unfolding AllAtLeast
  least_cost i all j k (starts _ _ q _) h = omega (arith, q, i.is_sound.base j)
  least_cost {zs} i all j k (goes_on {u} {k = k0} _ _ w edge q) h =
      let le = least_cost i all u k0 w (omega (arith, q)) in
      elim (Bool-cases (node_at zs u).visited) [
        | inl v ↦ omega (arith, i.closed u j v edge, q, le)
        | inr n ↦ absurd (omega (arith, all u n, q, le))
      ]

  IsShortest-end : {zs : List Node} → Inv db xs zs → AllAtLeast int_max zs → IsShortest db xs zs
  IsShortest-end i all = record {
    same = i.is_sound.same;
    attained = i.is_sound.sound;
    least = least_cost i all;
    origin = i.is_sound.origin;
  }

  pub dijkstra_loop_lem :
      (fuel : ℕ) (ys : List Node)
      → Inv db xs ys
      → unvisited ys < fuel
      → (zs : List Node) × (dijkstra_loop fuel db ys ≡ some zs) × IsShortest db xs zs
  unfolding dijkstra_loop
  dijkstra_loop_lem zero ys i h = absurd (omega (arith, h))
  dijkstra_loop_lem (suc fuel) ys i h = elim (picked_lem ys) [
    | inl (e, all) ↦ (ys, rw (dijkstra_loop, e) refl, IsShortest-end i all)
    | inr (u, e, f, p) ↦
        rw (dijkstra_loop, e)
          (dijkstra_loop_lem fuel (visit db u ys) (Inv-visit db xs u ys i p f)
            (omega (arith, unvisited-visit db u ys p.inside p.unvisited)))
  ]

Inv-start :
    (r : ℕ) (is : List NbrIface) (db : List DbEntry) (xs : List Node)
    → AllStart r is xs
    → Inv db xs xs
unfolding AllStart
Inv-start r is db xs h = record {
  is_sound = record {
    same = record { size = refl; names = λ rid. refl; rids = λ j. refl };
    sound = λ j f. starts j _ refl f;
    base = λ j. omega arith;
    origin = λ j. unchanged refl refl;
    bound = λ j. IsStart-le (h j);
  };
  closed = λ u v vis edge. cc (IsStart-fresh (h u));
  order = λ u w vis n. cc (IsStart-fresh (h u));
}

pub shortest_paths-end :
    (r : ℕ) (db : List DbEntry) (is : List NbrIface)
    → (zs : List Node) × (shortest_paths r db is ≡ some zs) × IsShortest db (all_nodes r db is) zs
unfolding shortest_paths
shortest_paths-end r db is =
    let xs = all_nodes r db is in
    dijkstra_loop_lem db xs (length xs + 1) xs (Inv-start r is db xs (AllStart-all_nodes r is db))
      (omega (arith, unvisited-le xs))

-- The search for shortest paths ends within its fuel, whatever the database and the neighbours are. It
-- starts with the router at cost 0, its neighbours at cost 1 and all others out of reach, and ends with
-- the costs of the shortest walks: each cost below INT_MAX is that of a walk along links of the database,
-- no walk to the node is cheaper, and the predecessor is where the cost was reached from.
pub shortest_paths_lem :
    (r : ℕ) (db : List DbEntry) (is : List NbrIface)
    → (xs : List Node) × (zs : List Node) × IsGraph r db is xs
      × (shortest_paths r db is ≡ some zs)
      × IsShortest db xs zs
shortest_paths_lem r db is =
    let (zs, e, h) = shortest_paths-end r db is in
    (all_nodes r db is, zs, all_nodes-IsGraph r db is, e, h)
