-- ===== src/Mospf/Spf/Present.antt =====
-- The router, its neighbours and each entry of the database have a node.
use mathlib.Core.List.{Memᴰ}
use njucn_lab.Common.{
  ℕ, zero, suc, ◌<◌, ◌≤◌, ◌≡◌, inl, inr, refl, sym, ap, subst, false, List, [], ◌∷◌, ◌++◌, some,
  Option-cases, Bool-cases, length, ◌==◌, arith,
}
use njucn_lab.Mospf.Database.{DbEntry}
use njucn_lab.Mospf.Instance.{Nbr, NbrIface}
use njucn_lab.Mospf.Spf.{
  Node, node_at, int_max, db_nodes, find_entry, add_self, add_nbr, add_nbrs, add_all_nbrs,
  all_nodes,
}
use njucn_lab.Mospf.Spf.Start.{AllStart, AllStart-all_nodes}

-- A node of that name that costs at most `c`.
abbrev pub HasNode : ℕ → ℕ → List Node → Type 0
HasNode k c xs = (j : ℕ) × (j < length xs) × ((node_at xs j).rid ≡ k) × ((node_at xs j).cost ≤ c)

HasNode-tail : (k c : ℕ) (x : Node) (xs : List Node) → HasNode k c xs → HasNode k c (x ∷ xs)
HasNode-tail k c x xs (j, l, e, m) = (suc j, omega (arith, l), e, m)

HasNode-db_nodes :
    (r : ℕ) (e : DbEntry) (db : List DbEntry) → Memᴰ e db → HasNode e.rid int_max (db_nodes r db)
unfolding db_nodes
HasNode-db_nodes r e [] m = elim m [ ]
HasNode-db_nodes r e (x ∷ xs) (Memᴰ.head q) =
    (0, omega arith, ap (λ (y : DbEntry). y.rid) (sym q), ground arith)
HasNode-db_nodes r e (x ∷ xs) (Memᴰ.tail m) =
    HasNode-tail e.rid int_max _ (db_nodes r xs) (HasNode-db_nodes r e xs m)

-- An entry of the router itself costs nothing.
HasNode-own :
    (r : ℕ) (e : DbEntry) (db : List DbEntry)
    → find_entry r db ≡ some e
    → HasNode r 0 (db_nodes r db)
unfolding db_nodes find_entry
HasNode-own r e [] h = absurd (ground (arith, h))
HasNode-own r e (x ∷ xs) h = elim (Bool-cases (x.rid == r)) [
  | inl t ↦ (0, omega arith, ground (arith, t), ground (arith, t))
  | inr t ↦ HasNode-tail r 0 _ (db_nodes r xs) (HasNode-own r e xs (ground (arith, h, t)))
]

HasNode-snoc : (k c : ℕ) (y : Node) (xs : List Node) → HasNode k c xs → HasNode k c (xs ++ (y ∷ []))
HasNode-snoc k c y [] (j, l, e, m) = absurd (omega (arith, l))
HasNode-snoc k c y (x ∷ xs) (zero, l, e, m) = (0, omega arith, e, m)
HasNode-snoc k c y (x ∷ xs) (suc j, l, e, m) =
    HasNode-tail k c x (xs ++ (y ∷ [])) (HasNode-snoc k c y xs (j, omega (arith, l), e, m))

HasNode-last : (y : Node) (xs : List Node) → HasNode y.rid y.cost (xs ++ (y ∷ []))
HasNode-last y [] = (0, omega arith, refl, omega arith)
HasNode-last y (x ∷ xs) = HasNode-tail y.rid y.cost x (xs ++ (y ∷ [])) (HasNode-last y xs)

HasNode-add_self :
    (r k c : ℕ) (db : List DbEntry) (xs : List Node)
    → HasNode k c xs
    → HasNode k c (add_self r db xs)
unfolding add_self
HasNode-add_self r k c db xs h = elim (Option-cases (find_entry r db)) [
  | inl e ↦ rw (add_self, e) (HasNode-snoc k c _ xs h)
  | inr (x, e) ↦ rw (add_self, e) h
]

HasNode-self : (r : ℕ) (db : List DbEntry) → HasNode r 0 (add_self r db (db_nodes r db))
unfolding add_self
HasNode-self r db = elim (Option-cases (find_entry r db)) [
  | inl e ↦
      rw (add_self, e)
        (HasNode-last (record { rid = r; cost = 0; pre = 0; visited = false }) (db_nodes r db))
  | inr (x, e) ↦ rw (add_self, e) (HasNode-own r x db e)
]

HasNode-add_nbr : (r n k c : ℕ) (xs : List Node) → HasNode k c xs → HasNode k c (add_nbr r n xs)
unfolding add_nbr
HasNode-add_nbr r n k c [] (j, l, e, m) = absurd (omega (arith, l))
HasNode-add_nbr r n k c (x ∷ xs) (zero, l, e, m) = elim (Bool-cases (x.rid == n)) [
  | inl t ↦ rw t (0, omega arith, ground (arith, e), ground (arith, m))
  | inr t ↦ rw t (0, omega arith, e, m)
]
HasNode-add_nbr r n k c (x ∷ xs) (suc j, l, e, m) = elim (Bool-cases (x.rid == n)) [
  | inl t ↦ rw t (suc j, omega (arith, l), e, m)
  | inr t ↦
      rw t (
        HasNode-tail k c x (add_nbr r n xs)
          (HasNode-add_nbr r n k c xs (j, omega (arith, l), e, m)))
]

HasNode-new : (r n : ℕ) (xs : List Node) → HasNode n 1 (add_nbr r n xs)
unfolding add_nbr
HasNode-new r n [] = (0, omega arith, refl, omega arith)
HasNode-new r n (x ∷ xs) = elim (Bool-cases (x.rid == n)) [
  | inl t ↦ rw t (0, omega arith, ground (arith, t), ground arith)
  | inr t ↦ rw t (HasNode-tail n 1 x (add_nbr r n xs) (HasNode-new r n xs))
]

HasNode-add_nbrs :
    (r k c : ℕ) (ns : List Nbr) (xs : List Node) → HasNode k c xs → HasNode k c (add_nbrs r ns xs)
unfolding add_nbrs
HasNode-add_nbrs r k c [] xs h = h
HasNode-add_nbrs r k c (n ∷ ns) xs h =
    HasNode-add_nbrs r k c ns _ (HasNode-add_nbr r n.nbr_id k c xs h)

HasNode-nbr :
    (r : ℕ) (n : Nbr) (ns : List Nbr) (xs : List Node)
    → Memᴰ n ns
    → HasNode n.nbr_id 1 (add_nbrs r ns xs)
unfolding add_nbrs
HasNode-nbr r n [] xs m = elim m [ ]
HasNode-nbr r n (x ∷ ns) xs (Memᴰ.head q) = HasNode-add_nbrs r n.nbr_id 1 ns _ (
    subst (λ k. HasNode n.nbr_id 1 (add_nbr r k xs)) (ap (λ (y : Nbr). y.nbr_id) q)
      (HasNode-new r n.nbr_id xs))
HasNode-nbr r n (x ∷ ns) xs (Memᴰ.tail m) = HasNode-nbr r n ns _ m

HasNode-add_all_nbrs :
    (r k c : ℕ) (is : List NbrIface) (xs : List Node)
    → HasNode k c xs
    → HasNode k c (add_all_nbrs r is xs)
unfolding add_all_nbrs
HasNode-add_all_nbrs r k c [] xs h = h
HasNode-add_all_nbrs r k c (i ∷ is) xs h =
    HasNode-add_all_nbrs r k c is _ (HasNode-add_nbrs r k c i.nbr_list xs h)

HasNode-all_nbrs :
    (r : ℕ) (i : NbrIface) (n : Nbr) (is : List NbrIface) (xs : List Node)
    → Memᴰ i is
    → Memᴰ n i.nbr_list
    → HasNode n.nbr_id 1 (add_all_nbrs r is xs)
unfolding add_all_nbrs
HasNode-all_nbrs r i n [] xs m k = elim m [ ]
HasNode-all_nbrs r i n (x ∷ is) xs (Memᴰ.head q) k =
    HasNode-add_all_nbrs r n.nbr_id 1 is _
      (HasNode-nbr r n x.nbr_list xs (subst (λ (y : NbrIface). Memᴰ n y.nbr_list) q k))
HasNode-all_nbrs r i n (x ∷ is) xs (Memᴰ.tail m) k = HasNode-all_nbrs r i n is _ m k

pub HasNode-all_nodes :
    (r : ℕ) (e : DbEntry) (db : List DbEntry) (is : List NbrIface)
    → Memᴰ e db
    → HasNode e.rid int_max (all_nodes r db is)
unfolding all_nodes
HasNode-all_nodes r e db is m =
    HasNode-add_all_nbrs r e.rid int_max is _
      (HasNode-add_self r e.rid int_max db _ (HasNode-db_nodes r e db m))

-- The nodes with which the search starts: one that costs 0 for the router, one that costs 1 at most for
-- each neighbour, one for each entry; and no others are within reach.
pub record IsGraph (r : ℕ) (db : List DbEntry) (is : List NbrIface) (xs : List Node) : Type 0 where
  pub router : HasNode r 0 xs
  pub nbrs : (i : NbrIface) (n : Nbr) → Memᴰ i is → Memᴰ n i.nbr_list → HasNode n.nbr_id 1 xs
  pub entries : (e : DbEntry) → Memᴰ e db → HasNode e.rid int_max xs
  pub start : AllStart r is xs

pub all_nodes-IsGraph :
    (r : ℕ) (db : List DbEntry) (is : List NbrIface) → IsGraph r db is (all_nodes r db is)
unfolding all_nodes
all_nodes-IsGraph r db is = record {
  router = HasNode-add_all_nbrs r r 0 is _ (HasNode-self r db);
  nbrs = λ i n m k. HasNode-all_nbrs r i n is _ m k;
  entries = λ e m. HasNode-all_nodes r e db is m;
  start = AllStart-all_nodes r is db;
}
