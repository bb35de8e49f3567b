-- ===== src/Mospf/Spf/Start.antt =====
-- The nodes with which the search starts.
use njucn_lab.Common.{
  ℕ, zero, suc, ◌≤◌, ◌≡◌, inl, inr, refl, subst, List, [], ◌∷◌, ◌++◌, false, Option-cases,
  Bool-cases, ltb, ◌==◌, arith, if◌then◌else◌,
}
use njucn_lab.Common.Keys.{Absent}
use njucn_lab.Mospf.Database.{DbEntry}
use njucn_lab.Mospf.Instance.{Nbr, NbrIface}
use njucn_lab.Mospf.Spf.{
  Node, node_at, int_max, db_nodes, find_entry, add_self, add_nbr, add_nbrs, add_all_nbrs,
  all_nodes,
}

-- No neighbour is named `k`.
abbrev pub NoNbr : ℕ → List NbrIface → Type 0
NoNbr k [] = Unit {0}
NoNbr k (i ∷ is) = Absent (λ n. n.nbr_id) k i.nbr_list × NoNbr k is

-- How a node starts: as the router itself, as one of its neighbours, or out of reach.
pub data IsStart (r : ℕ) (is : List NbrIface) (x : Node) : Type 0 where
  self : x.visited ≡ false → x.rid ≡ r → x.pre ≡ 0 → x.cost ≡ 0 → IsStart r is x
  nearby : x.visited ≡ false → x.pre ≡ r → x.cost ≡ 1 → ¬ NoNbr x.rid is → IsStart r is x
  far : x.visited ≡ false → x.pre ≡ 0 → x.cost ≡ int_max → IsStart r is x

module _ {r : ℕ} {is : List NbrIface} {x : Node} where
  pub IsStart-fresh : IsStart r is x → x.visited ≡ false
  IsStart-fresh (self v _ _ _) = v
  IsStart-fresh (nearby v _ _ _) = v
  IsStart-fresh (far v _ _) = v

  pub IsStart-le : IsStart r is x → x.cost ≤ int_max
  IsStart-le (self _ _ _ c) = omega (arith, c)
  IsStart-le (nearby _ _ c _) = omega (arith, c)
  IsStart-le (far _ _ c) = omega (arith, c)

unfoldable pub AllStart : ℕ → List NbrIface → List Node → Type 0
AllStart r is xs = (j : ℕ) → IsStart r is (node_at xs j)

module _ (r : ℕ) (is : List NbrIface) where
  AllStart-nil : AllStart r is []
  unfolding AllStart
  AllStart-nil j = far refl refl refl

  AllStart-cons :
      (x : Node) (xs : List Node) → IsStart r is x → AllStart r is xs → AllStart r is (x ∷ xs)
  unfolding AllStart
  AllStart-cons x xs v h zero = v
  AllStart-cons x xs v h (suc j) = h j

  AllStart-tail : (x : Node) (xs : List Node) → AllStart r is (x ∷ xs) → AllStart r is xs
  unfolding AllStart
  AllStart-tail x xs h j = h (suc j)

  AllStart-snoc :
      (x : Node) (xs : List Node)
      → IsStart r is x
      → AllStart r is xs
      → AllStart r is (xs ++ (x ∷ []))
  unfolding AllStart
  AllStart-snoc x [] v h = AllStart-cons x [] v h
  AllStart-snoc x (y ∷ ys) v h =
      AllStart-cons y _ (h 0) (AllStart-snoc x ys v (AllStart-tail y ys h))

  db_node-IsStart :
      (e : DbEntry)
      → IsStart r is (record {
        rid = e.rid;
        cost = if e.rid == r then 0 else int_max;
        pre = 0;
        visited = false;
      })
  db_node-IsStart e = elim (Bool-cases (e.rid == r)) [
    | inl t ↦ rw t (self refl (ground arith) refl refl)
    | inr t ↦ rw t (far refl refl refl)
  ]

  AllStart-db_nodes : (db : List DbEntry) → AllStart r is (db_nodes r db)
  unfolding db_nodes
  AllStart-db_nodes [] = AllStart-nil
  AllStart-db_nodes (e ∷ es) = AllStart-cons _ _ (db_node-IsStart e) (AllStart-db_nodes es)

  AllStart-add_self :
      (db : List DbEntry) (xs : List Node) → AllStart r is xs → AllStart r is (add_self r db xs)
  unfolding add_self
  AllStart-add_self db xs h = elim (Option-cases (find_entry r db)) [
    | inl e ↦ rw (add_self, e) (AllStart-snoc _ xs (self refl refl refl refl) h)
    | inr (x, e) ↦ rw (add_self, e) h
  ]

  nearer-IsStart :
      (n : ℕ) (x : Node)
      → ¬ NoNbr n is
      → n ≡ x.rid
      → IsStart r is x
      → IsStart r is (if ltb 1 x.cost then record x { cost = 1; pre = r } else x)
  nearer-IsStart n x q e h = elim (Bool-cases (ltb 1 x.cost)) [
    | inl t ↦ rw t (nearby (IsStart-fresh h) refl refl (subst (λ k. ¬ NoNbr k is) e q))
    | inr t ↦ rw t h
  ]

  AllStart-add_nbr :
      (n : ℕ) (xs : List Node) → ¬ NoNbr n is → AllStart r is xs → AllStart r is (add_nbr r n xs)
  unfolding add_nbr AllStart
  AllStart-add_nbr n [] q h = AllStart-cons _ [] (nearby refl refl refl q) AllStart-nil
  AllStart-add_nbr n (x ∷ xs) q h = elim (Bool-cases (x.rid == n)) [
    | inl t ↦ rw t (
        AllStart-cons _ xs (nearer-IsStart n x q (let e : n ≡ x.rid = ground (arith, t) in e) (h 0))
          (AllStart-tail x xs h))
    | inr t ↦ rw t (AllStart-cons x _ (h 0) (AllStart-add_nbr n xs q (AllStart-tail x xs h)))
  ]

  AllStart-add_nbrs :
      (ns : List Nbr) (xs : List Node)
      → ((k : ℕ) → NoNbr k is → Absent (λ (n : Nbr). n.nbr_id) k ns)
      → AllStart r is xs
      → AllStart r is (add_nbrs r ns xs)
  unfolding add_nbrs
  AllStart-add_nbrs [] xs q h = h
  AllStart-add_nbrs (n ∷ ns) xs q h =
      AllStart-add_nbrs ns _ (λ k a. (q k a).1)
        (AllStart-add_nbr n.nbr_id xs (λ a. (q n.nbr_id a).0 refl) h)

  AllStart-add_all_nbrs :
      (js : List NbrIface) (xs : List Node)
      → ((k : ℕ) → NoNbr k is → NoNbr k js)
      → AllStart r is xs
      → AllStart r is (add_all_nbrs r js xs)
  unfolding add_all_nbrs
  AllStart-add_all_nbrs [] xs q h = h
  AllStart-add_all_nbrs (i ∷ js) xs q h =
      AllStart-add_all_nbrs js _ (λ k a. (q k a).1)
        (AllStart-add_nbrs i.nbr_list xs (λ k a. (q k a).0) h)

  pub AllStart-all_nodes : (db : List DbEntry) → AllStart r is (all_nodes r db is)
  unfolding all_nodes
  AllStart-all_nodes db =
      AllStart-add_all_nbrs is _ (λ k a. a) (AllStart-add_self db _ (AllStart-db_nodes db))
