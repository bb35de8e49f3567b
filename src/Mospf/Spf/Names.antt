-- ===== src/Mospf/Spf/Names.antt =====
-- The nodes have distinct names: those of the database, of the router and of its neighbours.
use njucn_lab.Common.{
  ℕ, zero, suc, ◌+◌, ◌<◌, ◌≡◌, ◌≢◌, inl, inr, refl, ap, ◌∙◌, List, [], ◌∷◌, none, some,
  Option-cases, Bool-cases, length, ltb, ◌==◌, arith,
}
use njucn_lab.Common.Keys.{Absent, IsDistinct, Absent-snoc, IsDistinct-snoc, Absent-get}
use njucn_lab.Mospf.Database.{DbEntry}
use njucn_lab.Mospf.Instance.{Nbr, NbrIface}
use njucn_lab.Mospf.Spf.Start.{NoNbr}
use njucn_lab.Mospf.Spf.{
  Node, no_node, node_at, db_nodes, find_entry, find_node, add_self, add_nbr, add_nbrs,
  add_all_nbrs, all_nodes,
}

-- No node of the list, and no entry of the database, is named `k`.
abbrev pub NoNode : ℕ → List Node → Type 0
NoNode = Absent (λ x. x.rid)

abbrev pub NoEntry : ℕ → List DbEntry → Type 0
NoEntry = Absent (λ e. e.rid)

abbrev pub NodesDistinct : List Node → Type 0
NodesDistinct = IsDistinct (λ x. x.rid)

abbrev pub EntriesDistinct : List DbEntry → Type 0
EntriesDistinct = IsDistinct (λ e. e.rid)

find_node-offset :
    (i j : ℕ) (xs : List Node)
    → NodesDistinct xs
    → j < length xs
    → find_node i (node_at xs j).rid xs ≡ some (i + j)
unfolding find_node
find_node-offset i j [] d l = absurd (omega (arith, l))
find_node-offset i zero (x ∷ xs) d l = ground arith
find_node-offset i (suc j) (x ∷ xs) d l = ground (
  arith,
  find_node-offset (suc i) j xs d.1 (omega (arith, l)),
  Absent-get (λ (y : Node). y.rid) x.rid xs j no_node d.0 (omega (arith, l)),
)

-- A node is found under its own name.
pub find_node-found :
    (j : ℕ) (xs : List Node)
    → NodesDistinct xs
    → j < length xs
    → find_node 0 (node_at xs j).rid xs ≡ some j
find_node-found j xs d l =
    find_node-offset 0 j xs d l ∙ ap some (let q : 0 + j ≡ j = omega arith in q)

pub find_node-none : (i k : ℕ) (xs : List Node) → NoNode k xs → find_node i k xs ≡ none
unfolding find_node
find_node-none i k [] h = refl
find_node-none i k (x ∷ xs) h = ground (arith, h.0, find_node-none (suc i) k xs h.1)

find_entry-none : (k : ℕ) (db : List DbEntry) → find_entry k db ≡ none → NoEntry k db
unfolding find_entry
find_entry-none k [] h = tt
find_entry-none k (e ∷ es) h = elim (Bool-cases (e.rid == k)) [
  | inl t ↦ absurd (ground (arith, h, t))
  | inr t ↦ ((λ q. ground (arith, t, q)), find_entry-none k es (ground (arith, h, t)))
]

NoNode-db_nodes : (r k : ℕ) (db : List DbEntry) → NoEntry k db → NoNode k (db_nodes r db)
unfolding db_nodes
NoNode-db_nodes r k [] h = tt
NoNode-db_nodes r k (e ∷ es) h = (h.0, NoNode-db_nodes r k es h.1)

NodesDistinct-db_nodes :
    (r : ℕ) (db : List DbEntry) → EntriesDistinct db → NodesDistinct (db_nodes r db)
unfolding db_nodes
NodesDistinct-db_nodes r [] d = tt
NodesDistinct-db_nodes r (e ∷ es) d =
    (NoNode-db_nodes r e.rid es d.0, NodesDistinct-db_nodes r es d.1)

NoNode-add_self :
    (r k : ℕ) (db : List DbEntry) (xs : List Node)
    → r ≢ k
    → NoNode k xs
    → NoNode k (add_self r db xs)
unfolding add_self
NoNode-add_self r k db xs n h = elim (Option-cases (find_entry r db)) [
  | inl e ↦ rw (add_self, e) (Absent-snoc (λ (x : Node). x.rid) k xs _ h n)
  | inr (x, e) ↦ rw (add_self, e) h
]

NodesDistinct-add_self :
    (r : ℕ) (db : List DbEntry) → EntriesDistinct db → NodesDistinct (add_self r db (db_nodes r db))
unfolding add_self
NodesDistinct-add_self r db d = elim (Option-cases (find_entry r db)) [
  | inl e ↦
      rw (add_self, e)
        (IsDistinct-snoc (λ (x : Node). x.rid) (db_nodes r db) _ (NodesDistinct-db_nodes r db d)
          (NoNode-db_nodes r r db (find_entry-none r db e)))
  | inr (x, e) ↦ rw (add_self, e) (NodesDistinct-db_nodes r db d)
]

NoNode-add_nbr : (r n k : ℕ) (xs : List Node) → n ≢ k → NoNode k xs → NoNode k (add_nbr r n xs)
unfolding add_nbr
NoNode-add_nbr r n k [] q h = (q, tt)
NoNode-add_nbr r n k (x ∷ xs) q h = elim (Bool-cases (x.rid == n)) [
  | inl t ↦ rw t ((λ e. ground (arith, h.0, e)), h.1)
  | inr t ↦ rw t (h.0, NoNode-add_nbr r n k xs q h.1)
]

NodesDistinct-add_nbr :
    (r n : ℕ) (xs : List Node) → NodesDistinct xs → NodesDistinct (add_nbr r n xs)
unfolding add_nbr
NodesDistinct-add_nbr r n [] d = (tt, tt)
NodesDistinct-add_nbr r n (x ∷ xs) d = elim (Bool-cases (x.rid == n)) [
  | inl t ↦
      rw t (elim (Bool-cases (ltb 1 x.cost)) [ inl u ↦ rw u (d.0, d.1) | inr u ↦ rw u (d.0, d.1) ])
  | inr t ↦ rw t (
    NoNode-add_nbr r n x.rid xs (λ e. ground (arith, t, e)) d.0,
    NodesDistinct-add_nbr r n xs d.1,
  )
]

NoNode-add_nbrs :
    (r k : ℕ) (ns : List Nbr) (xs : List Node)
    → Absent (λ n. n.nbr_id) k ns
    → NoNode k xs
    → NoNode k (add_nbrs r ns xs)
unfolding add_nbrs
NoNode-add_nbrs r k [] xs a h = h
NoNode-add_nbrs r k (n ∷ ns) xs a h =
    NoNode-add_nbrs r k ns _ a.1 (NoNode-add_nbr r n.nbr_id k xs a.0 h)

NodesDistinct-add_nbrs :
    (r : ℕ) (ns : List Nbr) (xs : List Node) → NodesDistinct xs → NodesDistinct (add_nbrs r ns xs)
unfolding add_nbrs
NodesDistinct-add_nbrs r [] xs d = d
NodesDistinct-add_nbrs r (n ∷ ns) xs d =
    NodesDistinct-add_nbrs r ns _ (NodesDistinct-add_nbr r n.nbr_id xs d)

NoNode-add_all_nbrs :
    (r k : ℕ) (is : List NbrIface) (xs : List Node)
    → NoNbr k is
    → NoNode k xs
    → NoNode k (add_all_nbrs r is xs)
unfolding add_all_nbrs
NoNode-add_all_nbrs r k [] xs a h = h
NoNode-add_all_nbrs r k (i ∷ is) xs a h =
    NoNode-add_all_nbrs r k is _ a.1 (NoNode-add_nbrs r k i.nbr_list xs a.0 h)

NodesDistinct-add_all_nbrs :
    (r : ℕ) (is : List NbrIface) (xs : List Node)
    → NodesDistinct xs
    → NodesDistinct (add_all_nbrs r is xs)
unfolding add_all_nbrs
NodesDistinct-add_all_nbrs r [] xs d = d
NodesDistinct-add_all_nbrs r (i ∷ is) xs d =
    NodesDistinct-add_all_nbrs r is _ (NodesDistinct-add_nbrs r i.nbr_list xs d)

pub NodesDistinct-all_nodes :
    (r : ℕ) (db : List DbEntry) (is : List NbrIface)
    → EntriesDistinct db
    → NodesDistinct (all_nodes r db is)
unfolding all_nodes
NodesDistinct-all_nodes r db is d =
    NodesDistinct-add_all_nbrs r is _ (NodesDistinct-add_self r db d)

-- Neither the router, nor an entry, nor a neighbour is named `k`.
pub record NoneNamed (k r : ℕ) (db : List DbEntry) (is : List NbrIface) : Type 0 where
  pub router : r ≢ k
  pub entries : NoEntry k db
  pub nbrs : NoNbr k is

pub NoNode-all_nodes :
    (k r : ℕ) (db : List DbEntry) (is : List NbrIface)
    → NoneNamed k r db is
    → NoNode k (all_nodes r db is)
unfolding all_nodes
NoNode-all_nodes k r db is h =
    NoNode-add_all_nbrs r k is _ h.nbrs
      (NoNode-add_self r k db _ h.router (NoNode-db_nodes r k db h.entries))
