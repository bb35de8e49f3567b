-- ===== src/Mospf/Routes/NextHop.antt =====
-- The way back along the predecessors ends, at the neighbour where a shortest walk begins.
use njucn_lab.Common.{
  ℕ, zero, suc, ◌+◌, ◌≤◌, ◌<◌, ◌≡◌, ◌≢◌, inl, inr, refl, sym, ap, subst, ◌∙◌, List, [], ◌∷◌, none,
  some, true, false, ◌||◌, Bool-cases, Option-cases, length, ◌==◌, arith,
}
use njucn_lab.Common.Keys.{Absent-get}
use njucn_lab.Router.Rtable.{Iface}
use njucn_lab.Mospf.Database.{DbEntry}
use njucn_lab.Mospf.Instance.{Nbr, NbrIface}
use njucn_lab.Mospf.Spf.{Node, no_node, node_at, int_max, find_node, find_entry}
use njucn_lab.Mospf.Spf.Start.{NoNbr, AllStart, IsStart, self, nearby, far}
use njucn_lab.Mospf.Spf.Names.{NoEntry, NodesDistinct, NoNode, find_node-found, find_node-none}
use njucn_lab.Mospf.Spf.Walks.{LeadsTo, Edge, unchanged, reached}
use njucn_lab.Mospf.Spf.Shortest.{IsShortest}
use njucn_lab.Mospf.Routes.Lookup.{find_entry-missing, nbr_of-none}
use njucn_lab.Mospf.Routes.{no_pre, trace_back, nbr_of}

visited-inside : (xs : List Node) (j : ℕ) → (node_at xs j).visited ≡ true → j < length xs
visited-inside [] j v = absurd (ground (arith, v))
visited-inside (x ∷ xs) zero v = omega arith
visited-inside (x ∷ xs) (suc j) v = omega (arith, visited-inside xs j v)

module _ (r : ℕ) (is : List NbrIface) (db : List DbEntry) (xs zs : List Node) where
  -- A walk from `v` on which each node costs one more than the node before.
  pub data Trail (v : ℕ) : ℕ → Type 0 where
    here : Trail v v
    onward :
        {u : ℕ} (j : ℕ)
        → Trail v u
        → Edge db xs u j
        → (node_at zs j).cost ≡ (node_at zs u).cost + 1
        → Trail v j

  -- `hop` is the name of a node right behind the router, on a shortest walk to `j`.
  pub record IsFirstHop (j hop : ℕ) : Type 0 where
    pub place : ℕ
    pub name : hop ≡ (node_at zs place).rid
    pub behind_router : (node_at zs place).pre ≡ r
    pub trail : Trail place j

  -- How the search has left the nodes.
  pub record Settled : Type 0 where
    pub start : AllStart r is xs
    pub shortest : IsShortest db xs zs
    pub distinct : NodesDistinct xs
    pub no_sentinel : NoNode no_pre xs

  module _ (s : Settled) where
    found : (j : ℕ) → j < length xs → find_node 0 (node_at xs j).rid zs ≡ some j
    found j l = s.shortest.same.names (node_at xs j).rid ∙ find_node-found j xs s.distinct l

    stops :
        (fuel j : ℕ)
        → j < length xs
        → (node_at zs j).pre ≡ r
        → trace_back (suc fuel) r zs (node_at xs j).rid ≡ some (node_at xs j).rid
    unfolding trace_back
    stops fuel j l e =
        let t : ((node_at zs j).pre == r || (node_at zs j).pre == no_pre) ≡ true =
          ground (arith, e) in
        rw (trace_back, found j l, t) refl

    goes_back :
        (fuel j p : ℕ)
        → j < length xs
        → (node_at zs j).pre ≡ p
        → p ≢ r
        → p ≢ no_pre
        → trace_back (suc fuel) r zs (node_at xs j).rid ≡ trace_back fuel r zs p
    unfolding trace_back
    goes_back fuel j p l e n m =
        let t : ((node_at zs j).pre == r || (node_at zs j).pre == no_pre) ≡ false =
          ground (arith, e, n, m) in
        rw (trace_back, found j l, t) (ap (trace_back fuel r zs) e)

    ends_here :
        (fuel j : ℕ)
        → j < length xs
        → (node_at zs j).pre ≡ r
        → (hop : ℕ) × (trace_back (suc fuel) r zs (node_at xs j).rid ≡ some hop) × IsFirstHop j hop
    ends_here fuel j l e = (
      (node_at xs j).rid,
      stops fuel j l e,
      record { place = j; name = sym (s.shortest.same.rids j); behind_router = e; trail = here },
    )

    start_pre :
        (j : ℕ)
        → IsStart r is (node_at xs j)
        → (node_at xs j).cost < int_max
        → (node_at xs j).rid ≢ r
        → (node_at xs j).pre ≡ r
    start_pre j (self _ e _ _) f n = absurd (n e)
    start_pre j (nearby _ e _ _) f n = e
    start_pre j (far _ _ e) f n = absurd (omega (arith, e, f))

    far_pre :
        (j : ℕ)
        → IsStart r is (node_at xs j)
        → int_max ≤ (node_at xs j).cost
        → (node_at xs j).pre ≡ 0
    far_pre j (self _ _ _ e) f = absurd (omega (arith, e, f))
    far_pre j (nearby _ _ e _) f = absurd (omega (arith, e, f))
    far_pre j (far _ e _) f = e

    -- From a node within reach.
    pub trace_back-reached :
        (fuel j : ℕ)
        → (node_at zs j).cost < fuel
        → j < length xs
        → (node_at zs j).cost < int_max
        → (node_at xs j).rid ≢ r
        → (hop : ℕ) × (trace_back fuel r zs (node_at xs j).rid ≡ some hop) × IsFirstHop j hop
    unfolding AllStart
    trace_back-reached zero j h l f n = absurd (omega (arith, h))
    trace_back-reached (suc fuel) j h l f n = elim (s.shortest.origin j) [
      | unchanged c p ↦ ends_here fuel j l (p ∙ start_pre j (s.start j) (omega (arith, c, f)) n)
      | reached u v edge c _ p ↦
          let inside = visited-inside zs u v in
          let size = s.shortest.same.size in
          elim (Bool-cases ((node_at xs u).rid == r)) [
            | inl t ↦
                ends_here fuel j l (p ∙ (let q : (node_at xs u).rid ≡ r = ground (arith, t) in q))
            | inr t ↦
                let far_off : (node_at xs u).rid ≢ r = λ q. ground (arith, t, q) in
                let (hop, e, w) =
                  trace_back-reached fuel u (omega (arith, h, c)) (omega (arith, inside, size))
                    (omega (arith, c, f)) far_off in
                (
                  hop,
                  goes_back fuel j (node_at xs u).rid l p far_off (
                        Absent-get (λ (x : Node). x.rid) no_pre xs u no_node s.no_sentinel
                          (omega (arith, inside, size)))
                      ∙ e,
                  record {
                    place = w.place;
                    name = w.name;
                    behind_router = w.behind_router;
                    trail = onward j w.trail edge c;
                  },
                )
          ]
    ]

    -- From a node out of reach, the way leads to the number 0, which no node has.
    pub trace_back-unreached :
        (fuel j : ℕ)
        → j < length xs
        → int_max ≤ (node_at zs j).cost
        → r ≢ 0
        → NoNode 0 xs
        → trace_back (suc (suc fuel)) r zs (node_at xs j).rid ≡ some 0
    unfolding AllStart trace_back
    trace_back-unreached fuel j l f n h = elim (s.shortest.origin j) [
      | unchanged c p ↦
          goes_back (suc fuel) j 0 l (p ∙ far_pre j (s.start j) (omega (arith, c, f)))
            (λ e. n (sym e)) (λ e. omega (arith, e))
          ∙ (rw (trace_back, s.shortest.same.names 0 ∙ find_node-none 0 0 xs h) refl)
      | reached _ _ _ _ less _ ↦ absurd (omega (arith, less, f))
    ]

    start_nbr :
        (j : ℕ)
        → IsStart r is (node_at xs j)
        → (node_at xs j).pre ≡ r
        → r ≢ 0
        → ¬ NoNbr (node_at xs j).rid is
    start_nbr j (self _ _ p _) e n = absurd (omega (arith, p, e, n))
    start_nbr j (nearby _ _ _ q) e n = q
    start_nbr j (far _ p _) e n = absurd (omega (arith, p, e, n))

    -- The router has no entry of its own, so that a node right behind it is a neighbour.
    pub nbr_of-hop :
        (j hop : ℕ)
        → IsFirstHop j hop
        → r ≢ 0
        → NoEntry r db
        → (t : Nbr × Iface) × (nbr_of hop is ≡ some t)
    unfolding AllStart Edge LeadsTo
    nbr_of-hop j hop w n own =
        let known : ¬ NoNbr (node_at xs w.place).rid is = elim (s.shortest.origin w.place) [
          | unchanged _ p ↦ start_nbr w.place (s.start w.place) (sym p ∙ w.behind_router) n
          | reached u _ edge _ _ p ↦ absurd (
              subst (λ k. LeadsTo db xs w.place (elim k [ none ↦ [] | some e ↦ e.array ]))
                (ap (λ k. find_entry k db) (sym p ∙ w.behind_router) ∙ find_entry-missing r db own)
                edge)
        ] in
        elim (Option-cases (nbr_of hop is)) [
          | inl e ↦ absurd (
              known (
                nbr_of-none (node_at xs w.place).rid is
                  (ap (λ k. nbr_of k is) (sym (s.shortest.same.rids w.place) ∙ sym w.name) ∙ e)))
          | inr t ↦ t
        ]
