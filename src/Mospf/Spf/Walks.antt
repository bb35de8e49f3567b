-- ===== src/Mospf/Spf/Walks.antt =====
-- Walks in the graph that the database describes, and what holds between two rounds of the search.
use njucn_lab.Common.{ℕ, ◌+◌, ◌≤◌, ◌<◌, ◌≡◌, ◌⊎◌, List, [], ◌∷◌, some, true, false, length}
use njucn_lab.Mospf.Database.{DbEntry, Lsa}
use njucn_lab.Mospf.Spf.{Node, node_at, int_max, find_node, links}

-- `xs` are the nodes with which the search starts.
module _ (db : List DbEntry) (xs : List Node) where
  -- One of the links leads to node `v`.
  unfoldable pub LeadsTo : ℕ → List Lsa → Type 0
  LeadsTo v [] = ⊥
  LeadsTo v (l ∷ ls) = (find_node 0 l.rid xs ≡ some v) ⊎ LeadsTo v ls

  -- The database has a link from node `u` to node `v`.
  unfoldable pub Edge : ℕ → ℕ → Type 0
  Edge u v = LeadsTo v (links (node_at xs u).rid db)

  -- Walks by their end and their cost: they start at a node that costs less than INT_MAX from the
  -- beginning, which are the router itself and its neighbours, and each link costs 1.
  pub data Walk : ℕ → ℕ → Type 0 where
    starts : (j k : ℕ) → k ≡ (node_at xs j).cost → k < int_max → Walk j k
    goes_on : {u k : ℕ} (v k' : ℕ) → Walk u k → Edge u v → k' ≡ k + 1 → Walk v k'

  -- Where the cost and the predecessor of a node come from.
  pub data Origin (ys : List Node) (j : ℕ) : Type 0 where
    unchanged :
        (node_at ys j).cost ≡ (node_at xs j).cost
        → (node_at ys j).pre ≡ (node_at xs j).pre
        → Origin ys j
    reached :
        (u : ℕ)
        → (node_at ys u).visited ≡ true
        → Edge u j
        → (node_at ys j).cost ≡ (node_at ys u).cost + 1
        → (node_at ys j).cost < int_max
        → (node_at ys j).pre ≡ (node_at xs u).rid
        → Origin ys j

  -- The names of the nodes are those of the beginning.
  pub record SameNames (ys : List Node) : Type 0 where
    pub size : length ys ≡ length xs
    pub names : (rid : ℕ) → find_node 0 rid ys ≡ find_node 0 rid xs
    pub rids : (j : ℕ) → (node_at ys j).rid ≡ (node_at xs j).rid

  -- What holds throughout: finite costs are those of walks, and costs do not grow from INT_MAX at most.
  pub record IsSound (ys : List Node) : Type 0 where
    pub same : SameNames ys
    pub sound : (j : ℕ) → (node_at ys j).cost < int_max → Walk j (node_at ys j).cost
    pub base : (j : ℕ) → (node_at ys j).cost ≤ (node_at xs j).cost
    pub origin : (j : ℕ) → Origin ys j
    pub bound : (j : ℕ) → (node_at xs j).cost ≤ int_max

  -- Between two rounds, visited nodes are closed, and no dearer than unvisited ones.
  pub record Inv (ys : List Node) : Type 0 where
    pub is_sound : IsSound ys
    pub closed :
        (u v : ℕ)
        → (node_at ys u).visited ≡ true
        → Edge u v
        → (node_at ys v).cost ≤ (node_at ys u).cost + 1
    pub order :
        (u w : ℕ)
        → (node_at ys u).visited ≡ true
        → (node_at ys w).visited ≡ false
        → (node_at ys u).cost ≤ (node_at ys w).cost

  -- Within a round for node `u`, whose links from `ls` on are still to be relaxed.
  pub record Round (u : ℕ) (ls : List Lsa) (ys : List Node) : Type 0 where
    pub is_sound : IsSound ys
    pub here : (node_at ys u).visited ≡ true
    pub finite : (node_at ys u).cost < int_max
    pub closed :
        (x v : ℕ)
        → (node_at ys x).visited ≡ true
        → Edge x v
        → ((node_at ys v).cost ≤ (node_at ys x).cost + 1) ⊎ ((x ≡ u) × LeadsTo v ls)
    pub below : (x : ℕ) → (node_at ys x).visited ≡ true → (node_at ys x).cost ≤ (node_at ys u).cost
    pub above : (w : ℕ) → (node_at ys w).visited ≡ false → (node_at ys u).cost ≤ (node_at ys w).cost
    pub todo : (v : ℕ) → LeadsTo v ls → Edge u v
