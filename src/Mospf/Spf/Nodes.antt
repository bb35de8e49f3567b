-- ===== src/Mospf/Spf/Nodes.antt =====
-- The nodes as an array: the search for the cheapest one, and what relaxing a link changes.
use njucn_lab.Common.{
  ℕ, zero, suc, ◌+◌, ◌≤◌, ◌<◌, ◌≡◌, ◌⊎◌, inl, inr, refl, ap, subst, ◌∙◌, List, [], ◌∷◌, Option,
  none, some, false, not, ◌&&◌, Bool-cases, Option-cases, length, set, get_or-set_self,
  get_or-set_ne, length-set, ltb, ◌==◌, arith, if◌then◌else◌,
}
use njucn_lab.Mospf.Database.{Lsa}
use njucn_lab.Mospf.Spf.{Node, no_node, node_at, int_max, pick_min, find_node, relax}

-- No unvisited node is cheaper.
unfoldable pub AllAtLeast : ℕ → List Node → Type 0
AllAtLeast m xs = (j : ℕ) → (node_at xs j).visited ≡ false → m ≤ (node_at xs j).cost

-- Node `k` is unvisited, and the cheapest of those.
pub record IsCheapest (xs : List Node) (k : ℕ) : Type 0 where
  pub inside : k < length xs
  pub unvisited : (node_at xs k).visited ≡ false
  pub cheapest : AllAtLeast (node_at xs k).cost xs

AllAtLeast-cons :
    (m : ℕ) (x : Node) (xs : List Node)
    → (x.visited ≡ false → m ≤ x.cost)
    → AllAtLeast m xs
    → AllAtLeast m (x ∷ xs)
unfolding AllAtLeast
AllAtLeast-cons m x xs h all zero v = h v
AllAtLeast-cons m x xs h all (suc j) v = all j v

AllAtLeast-le : (m k : ℕ) (xs : List Node) → m ≤ k → AllAtLeast k xs → AllAtLeast m xs
unfolding AllAtLeast
AllAtLeast-le m k xs h all j v = omega (arith, all j v)

IsCheapest-cons :
    (x : Node) (xs : List Node) (k : ℕ)
    → IsCheapest xs k
    → (x.visited ≡ false → (node_at xs k).cost ≤ x.cost)
    → IsCheapest (x ∷ xs) (suc k)
IsCheapest-cons x xs k p h = record {
  inside = omega (arith, p.inside);
  unvisited = p.unvisited;
  cheapest = AllAtLeast-cons (node_at xs k).cost x xs h p.cheapest;
}

pick_min-lem :
    (i m : ℕ) (u : Option ℕ) (xs : List Node)
    → m ≤ int_max
    → ((pick_min i m u xs ≡ u) × AllAtLeast m xs)
      ⊎ ((k : ℕ) × (pick_min i m u xs ≡ some (i + k)) × ((node_at xs k).cost < m) × IsCheapest xs k)
unfolding pick_min AllAtLeast
pick_min-lem i m u [] h = inl (refl, λ j _. h)
pick_min-lem i m u (x ∷ xs) h = elim (Bool-cases (not x.visited && ltb x.cost m)) [
  | inl e ↦ elim (pick_min-lem (suc i) x.cost (some i) xs (ground arith)) [
    | inl (r, all) ↦ inr (
      0,
      rw e (r ∙ ap some (let q : i ≡ i + 0 = omega arith in q)),
      ground arith,
      record {
        inside = omega arith;
        unvisited = ground arith;
        cheapest = AllAtLeast-cons x.cost x xs (λ _. omega arith) all;
      },
    )
    | inr (k, r, c, p) ↦ inr (
      suc k,
      rw e (r ∙ ap some (let q : suc i + k ≡ i + suc k = omega arith in q)),
      ground arith,
      IsCheapest-cons x xs k p (λ _. omega arith),
    )
  ]
  | inr e ↦ elim (pick_min-lem (suc i) m u xs h) [
    | inl (r, all) ↦ inl (rw e r, AllAtLeast-cons m x xs (λ v. ground (arith, e, v)) all)
    | inr (k, r, c, p) ↦ inr (
      suc k,
      rw e (r ∙ ap some (let q : suc i + k ≡ i + suc k = omega arith in q)),
      c,
      IsCheapest-cons x xs k p (λ v. ground (arith, e, v, c)),
    )
  ]
]

-- The search of a round: the cheapest unvisited node, or none if all of those cost INT_MAX.
pub picked_lem :
    (xs : List Node)
    → ((pick_min 0 int_max none xs ≡ none) × AllAtLeast int_max xs)
      ⊎ ((k : ℕ) × (pick_min 0 int_max none xs ≡ some k)
          × ((node_at xs k).cost < int_max)
          × IsCheapest xs k)
picked_lem xs = elim (pick_min-lem 0 int_max none xs (omega arith)) [
  | inl p ↦ inl p
  | inr (k, r, c, p) ↦ inr (k, r ∙ ap some (let q : 0 + k ≡ k = omega arith in q), c, p)
]

-- The node that is found is in the list and has the router's number.
pub find_node-some :
    (i rid v : ℕ) (xs : List Node)
    → find_node i rid xs ≡ some v
    → (k : ℕ) × (v ≡ i + k) × (k < length xs) × ((node_at xs k).rid ≡ rid)
unfolding find_node
find_node-some i rid v [] h = absurd (ground (arith, h))
find_node-some i rid v (x ∷ xs) h = elim (Bool-cases (x.rid == rid)) [
  | inl e ↦ (0, ground (arith, h, e), omega arith, ground arith)
  | inr e ↦
      let (k, q, l, r) = find_node-some (suc i) rid v xs (ground (arith, h, e)) in
      (suc k, omega arith, omega arith, r)
]

-- A change that keeps the router's number of a node does not change what is found.
pub find_node-set :
    (i rid k : ℕ) (y : Node) (xs : List Node)
    → y.rid ≡ (node_at xs k).rid
    → find_node i rid (set xs k y) ≡ find_node i rid xs
unfolding find_node
find_node-set i rid k y [] h = refl
find_node-set i rid zero y (x ∷ xs) h = rw h
find_node-set i rid (suc k) y (x ∷ xs) h = rw (find_node-set (suc i) rid k y xs h)

pub node_at-set :
    (xs : List Node) (k j : ℕ) (y : Node)
    → k < length xs
    → node_at (set xs k y) j ≡ (if j == k then y else node_at xs j)
node_at-set xs k j y h = elim (Bool-cases (j == k)) [
  | inl e ↦ let same : k ≡ j = ground arith in rw (e, ← same) (get_or-set_self xs k y no_node h)
  | inr e ↦ rw e (get_or-set_ne xs k j y no_node (λ q. ground arith))
]

-- What relaxing a link of a router changes: only the node that the link names, if it is unvisited and
-- dearer.
pub record IsRelaxed (u_cost u_rid : ℕ) (l : Lsa) (xs ys : List Node) : Type 0 where
  pub size : length ys ≡ length xs
  pub names : (rid : ℕ) → find_node 0 rid ys ≡ find_node 0 rid xs
  pub each :
      (j : ℕ)
      → (node_at ys j ≡ node_at xs j)
        ⊎ ((find_node 0 l.rid xs ≡ some j)
            × ((node_at xs j).visited ≡ false)
            × (u_cost + 1 < (node_at xs j).cost)
            × (node_at ys j ≡ record (node_at xs j) { cost = u_cost + 1; pre = u_rid }))
  pub hit :
      (v : ℕ)
      → find_node 0 l.rid xs ≡ some v
      → (node_at xs v).visited ≡ false
      → (node_at ys v).cost ≤ u_cost + 1

pub one_place : {o : Option ℕ} {v w : ℕ} → o ≡ some v → o ≡ some w → v ≡ w
one_place e f = ground (arith, e, f)

-- Node `v` is relaxed.
relax-at :
    (c r v : ℕ) (xs : List Node) (l : Lsa)
    → find_node 0 l.rid xs ≡ some v
    → v < length xs
    → (node_at xs v).visited ≡ false
    → c + 1 < (node_at xs v).cost
    → IsRelaxed c r l xs (set xs v (record (node_at xs v) { cost = c + 1; pre = r }))
relax-at c r v xs l e inside unvisited dearer =
    let y = record (node_at xs v) { cost = c + 1; pre = r } in
    let self = get_or-set_self xs v y no_node inside in
    record {
      size = length-set xs v y;
      names = λ rid. find_node-set 0 rid v y xs refl;
      each = λ j. elim (Bool-cases (v == j)) [
        | inl q ↦ inr (
            subst
              (λ k.
                (find_node 0 l.rid xs ≡ some k)
                × ((node_at xs k).visited ≡ false)
                × (c + 1 < (node_at xs k).cost)
                × (node_at (set xs v y) k ≡ record (node_at xs k) { cost = c + 1; pre = r }))
              (let same : v ≡ j = ground arith in same) (e, unvisited, dearer, self))
        | inr q ↦ inl (get_or-set_ne xs v j y no_node (λ same. ground arith))
      ];
      hit = λ w f n.
          subst (λ k. (node_at (set xs v y) k).cost ≤ c + 1) (one_place e f)
            (omega (arith, ap (λ (z : Node). z.cost) self));
    }

pub relax-IsRelaxed : (c r : ℕ) (xs : List Node) (l : Lsa) → IsRelaxed c r l xs (relax c r xs l)
unfolding relax
relax-IsRelaxed c r xs l = elim (Option-cases (find_node 0 l.rid xs)) [
  | inl e ↦
      rw (relax, e)
        (record {
          size = refl;
          names = λ rid. refl;
          each = λ j. inl refl;
          hit = λ v f _. absurd (ground (arith, f, e));
        })
  | inr (v, e) ↦ elim (Bool-cases (not (node_at xs v).visited && ltb (c + 1) (node_at xs v).cost)) [
    | inr t ↦
        rw (relax, e, t)
          (record {
            size = refl;
            names = λ rid. refl;
            each = λ j. inl refl;
            hit = λ w f n.
                subst (λ k. (node_at xs k).visited ≡ false → (node_at xs k).cost ≤ c + 1)
                  (one_place e f) (λ n'. ground (arith, t, n')) n;
          })
    | inl t ↦
        let (k, q, inside, _) = find_node-some 0 l.rid v xs e in
        rw (relax, e, t)
          (relax-at c r v xs l e (omega arith) (ground (arith, t)) (ground (arith, t)))
  ]
]
