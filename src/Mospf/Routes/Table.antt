-- ===== src/Mospf/Routes/Table.antt =====
-- The routing table that is computed: what is added, and that nothing within reach is missing.
use mathlib.Core.List.{Memᴰ}
use mathlib.Core.List.Memᴰ.{cases_cons}
use njucn_lab.Common.{
  ℕ, ◌<◌, ◌≡◌, ◌≢◌, inl, inr, refl, ap, subst, ◌∙◌, List, [], ◌∷◌, ◌++◌, Option, none, some, true,
  false, ◌>>=◌, Bool-cases, length, ◌==◌, arith,
}
use njucn_lab.Router.Rtable.{Iface, RtEntry, new_rt_entry}
use njucn_lab.Mospf.Database.{DbEntry, Lsa}
use njucn_lab.Mospf.Instance.{Nbr, NbrIface}
use njucn_lab.Mospf.Spf.{Node, node_at, int_max}
use njucn_lab.Mospf.Spf.Walks.{Walk}
use njucn_lab.Mospf.Routes.{trace_back, hops, nbr_of, has_route, add_route, lsa_routes, db_routes}
use njucn_lab.Mospf.Routes.Lookup.{has_route-append, has_route-last}
use njucn_lab.Mospf.Routes.NextHop.{IsFirstHop}

module _ (r : ℕ) (is : List NbrIface) (db : List DbEntry) (xs zs : List Node) where
  -- The route to a network that `e` advertises leads to the neighbour where a shortest walk to it begins.
  pub record IsRoute (t : RtEntry) : Type 0 where
    pub entry : DbEntry
    pub in_db : Memᴰ entry db
    pub not_own : entry.rid ≢ r
    pub lsa : Lsa
    pub advertised : Memᴰ lsa entry.array
    pub node : ℕ
    pub name : (node_at xs node).rid ≡ entry.rid
    pub hop : ℕ
    pub first : IsFirstHop r is db xs zs node hop
    pub via : Nbr × Iface
    pub nbr : nbr_of hop is ≡ some via
    pub made : t ≡ new_rt_entry lsa.network lsa.mask via.0.nbr_ip via.1

  -- `after` is `before` with routes appended, each to a network that had none.
  pub data Extends (before : List RtEntry) : List RtEntry → Type 0 where
    same : Extends before before
    more :
        {mid : List RtEntry} (t : RtEntry)
        → Extends before mid
        → has_route t.dest t.mask mid ≡ false
        → IsRoute t
        → Extends before (mid ++ (t ∷ []))

  Extends-trans :
      {before mid after : List RtEntry}
      → Extends before mid
      → Extends mid after
      → Extends before after
  Extends-trans h same = h
  Extends-trans h (more t k n p) = more t (Extends-trans h k) n p

  Extends-has_route :
      {before after : List RtEntry} (dest mask : ℕ)
      → Extends before after
      → has_route dest mask before ≡ true
      → has_route dest mask after ≡ true
  Extends-has_route dest mask same h = h
  Extends-has_route dest mask (more {mid} t k n p) h =
      has_route-append dest mask mid (t ∷ []) (Extends-has_route dest mask k h)

  -- A walk leads to the node of that name.
  pub record IsReachable (rid : ℕ) : Type 0 where
    pub node : ℕ
    pub inside : node < length xs
    pub name : (node_at xs node).rid ≡ rid
    pub cost : ℕ
    pub finite : cost < int_max
    pub walk : Walk db xs node cost

  -- All networks of the router have a route.
  unfoldable pub HasRoutes : List Lsa → List RtEntry → Type 0
  HasRoutes ls table = (l : Lsa) → Memᴰ l ls → has_route l.network l.mask table ≡ true

  -- How the way back from an entry ends.
  pub data Way (e : DbEntry) (hop : ℕ) : Type 0 where
    leads :
        (j : ℕ)
        → (node_at xs j).rid ≡ e.rid
        → IsFirstHop r is db xs zs j hop
        → (t : Nbr × Iface) → nbr_of hop is ≡ some t
        → Way e hop
    fails : nbr_of hop is ≡ none → ¬ IsReachable e.rid → Way e hop

  add_route-Extends :
      (e : DbEntry) (hop : ℕ) (l : Lsa) (table : List RtEntry)
      → Way e hop
      → Memᴰ e db
      → e.rid ≢ r
      → Memᴰ l e.array
      → Extends table (add_route is hop l table)
        × (IsReachable e.rid → has_route l.network l.mask (add_route is hop l table) ≡ true)
  unfolding add_route new_rt_entry
  add_route-Extends e hop l table (fails q n) m o k = rw (add_route, q) (same, λ w. absurd (n w))
  add_route-Extends e hop l table (leads j name w t q) m o k =
      elim (Bool-cases (has_route l.network l.mask table)) [
        | inl h ↦ rw (add_route, q, h) (same, λ _. h)
        | inr h ↦
            let new = new_rt_entry l.network l.mask t.0.nbr_ip t.1 in
            rw (add_route, q, h)
              (
                more new same h (record {
                  entry = e;
                  in_db = m;
                  not_own = o;
                  lsa = l;
                  advertised = k;
                  node = j;
                  name = name;
                  hop = hop;
                  first = w;
                  via = t;
                  nbr = q;
                  made = refl;
                }),
                λ _. has_route-last l.network l.mask table new refl refl,
              )
      ]

  -- What the loops return.
  pub record IsRouted (es : List DbEntry) (before : List RtEntry) (result : Option (List RtEntry))
      : Type 0 where
    pub table : List RtEntry
    pub returned : result ≡ some table
    pub extends : Extends before table
    pub complete :
        (e : DbEntry) → Memᴰ e es → e.rid ≢ r → IsReachable e.rid → HasRoutes e.array table

  lsa_routes-lem :
      (e : DbEntry) (hop : ℕ) (ls : List Lsa) (table : List RtEntry)
      → trace_back hops r zs e.rid ≡ some hop
      → Way e hop
      → Memᴰ e db
      → e.rid ≢ r
      → ((l : Lsa) → Memᴰ l ls → Memᴰ l e.array)
      → (after : List RtEntry) × (lsa_routes r is zs e.rid ls table ≡ some after)
        × Extends table after
        × (IsReachable e.rid → HasRoutes ls after)
  unfolding lsa_routes HasRoutes
  lsa_routes-lem e hop [] table q w m o inc = (table, refl, same, λ _ l k. elim k [ ])
  lsa_routes-lem e hop (l ∷ ls) table q w m o inc =
      let (x, full) = add_route-Extends e hop l table w m o (inc l (Memᴰ.head refl)) in
      let (after, h, y, all) =
        lsa_routes-lem e hop ls (add_route is hop l table) q w m o (λ k i. inc k (Memᴰ.tail i)) in
      (
        after,
        rw (lsa_routes, q) h,
        Extends-trans x y,
        λ reach k i. elim (cases_cons i) [
          | inl p ↦ rw p (Extends-has_route l.network l.mask y (full reach))
          | inr i' ↦ all reach k i'
        ],
      )

  module _
      (ways : (e : DbEntry)
        → Memᴰ e db
        → e.rid ≢ r
        → (hop : ℕ) × (trace_back hops r zs e.rid ≡ some hop) × Way e hop) where
    pub db_routes-IsRouted :
        (es : List DbEntry) (table : List RtEntry)
        → ((e : DbEntry) → Memᴰ e es → Memᴰ e db)
        → IsRouted es table (db_routes r is zs es table)
    unfolding db_routes HasRoutes
    db_routes-IsRouted [] table inc = record {
      table = table;
      returned = refl;
      extends = same;
      complete = λ e m. elim m [ ];
    }
    db_routes-IsRouted (e ∷ es) table inc = elim (Bool-cases (e.rid == r)) [
      | inl t ↦
          let d = db_routes-IsRouted es table (λ x i. inc x (Memᴰ.tail i)) in
          record {
            table = d.table;
            returned = rw (db_routes, t) d.returned;
            extends = d.extends;
            complete = λ x i n reach. elim (cases_cons i) [
              | inl p ↦
                  absurd (
                    n (
                      ap (λ (z : DbEntry). z.rid) p ∙ (let q : e.rid ≡ r = ground (arith, t) in q)))
              | inr i' ↦ d.complete x i' n reach
            ];
          }
      | inr t ↦
          let far_off : e.rid ≢ r = λ q. ground (arith, t, q) in
          let m = inc e (Memᴰ.head refl) in
          let (hop, q, w) = ways e m far_off in
          let (mid, h, x, all) = lsa_routes-lem e hop e.array table q w m far_off (λ l i. i) in
          let d = db_routes-IsRouted es mid (λ y i. inc y (Memᴰ.tail i)) in
          record {
            table = d.table;
            returned = rw (db_routes, t) (ap (λ o. o >>= db_routes r is zs es) h ∙ d.returned);
            extends = Extends-trans x d.extends;
            complete = λ y i n reach. elim (cases_cons i) [
              | inl p ↦ rw p (λ l k.
                  Extends-has_route l.network l.mask d.extends
                    (all (subst (λ z. IsReachable z.rid) p reach) l k))
              | inr i' ↦ d.complete y i' n reach
            ];
          }
    ]
