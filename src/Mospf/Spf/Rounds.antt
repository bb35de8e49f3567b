-- ===== src/Mospf/Spf/Rounds.antt =====
-- Relaxing the links of the cheapest unvisited node keeps the invariant.
use njucn_lab.Common.{
  ℕ, ◌+◌, ◌≤◌, ◌≡◌, inl, inr, sym, ap, subst, ◌∙◌, List, ◌∷◌, some, true, Bool-cases, arith,
}
use njucn_lab.Mospf.Database.{DbEntry, Lsa}
use njucn_lab.Mospf.Spf.{Node, node_at, int_max, find_node}
use njucn_lab.Mospf.Spf.Nodes.{IsRelaxed}
use njucn_lab.Mospf.Spf.Walks.{
  LeadsTo, Edge, Walk, goes_on, Origin, unchanged, reached, SameNames, IsSound, Round,
}

module _ {c r : ℕ} {l : Lsa} {ys zs : List Node} where
  pub same_visited :
      IsRelaxed c r l ys zs → (j : ℕ) → (node_at zs j).visited ≡ (node_at ys j).visited
  same_visited d j = elim (d.each j) [
    | inl e ↦ ap (λ (x : Node). x.visited) e
    | inr (_, _, _, e) ↦ ap (λ (x : Node). x.visited) e
  ]

  same_rid : IsRelaxed c r l ys zs → (j : ℕ) → (node_at zs j).rid ≡ (node_at ys j).rid
  same_rid d j = elim (d.each j) [
    | inl e ↦ ap (λ (x : Node). x.rid) e
    | inr (_, _, _, e) ↦ ap (λ (x : Node). x.rid) e
  ]

  less_cost : IsRelaxed c r l ys zs → (j : ℕ) → (node_at zs j).cost ≤ (node_at ys j).cost
  less_cost d j = elim (d.each j) [
    | inl e ↦ omega (arith, ap (λ (x : Node). x.cost) e)
    | inr (_, _, less, e) ↦ omega (arith, less, ap (λ (x : Node). x.cost) e)
  ]

  -- A visited node stays as it is.
  same_node :
      IsRelaxed c r l ys zs → (j : ℕ) → (node_at ys j).visited ≡ true → node_at zs j ≡ node_at ys j
  same_node d j v = elim (d.each j) [ inl e ↦ e | inr (_, n, _, _) ↦ cc ]

  pub same_cost :
      IsRelaxed c r l ys zs
      → (j : ℕ) → (node_at ys j).visited ≡ true
      → (node_at zs j).cost ≡ (node_at ys j).cost
  same_cost d j v = ap (λ (x : Node). x.cost) (same_node d j v)

module _ (db : List DbEntry) (xs : List Node) where
  SameNames-relax :
      {c r : ℕ} {l : Lsa} {ys zs : List Node}
      → IsRelaxed c r l ys zs
      → SameNames db xs ys
      → SameNames db xs zs
  SameNames-relax d s = record {
    size = d.size ∙ s.size;
    names = λ rid. d.names rid ∙ s.names rid;
    rids = λ j. same_rid d j ∙ s.rids j;
  }

  -- The link that is relaxed.
  link_taken :
      {u : ℕ} {l : Lsa} {ls : List Lsa} {ys : List Node} (j : ℕ)
      → Round db xs u (l ∷ ls) ys
      → find_node 0 l.rid ys ≡ some j
      → Edge db xs u j
  unfolding LeadsTo
  link_taken {l = l} j k f = k.todo j (inl (sym (k.is_sound.same.names l.rid) ∙ f))

  Origin-relax :
      {u : ℕ} {l : Lsa} {ls : List Lsa} {ys zs : List Node} (j : ℕ)
      → (node_at xs j).cost ≤ int_max
      → Round db xs u (l ∷ ls) ys
      → IsRelaxed (node_at ys u).cost (node_at xs u).rid l ys zs
      → Origin db xs zs j
  Origin-relax {u} {ys = ys} j m k d = elim (d.each j) [
    | inl e ↦
        let cost = ap (λ (x : Node). x.cost) e in
        let pre = ap (λ (x : Node). x.pre) e in
        elim (k.is_sound.origin j) [
          | unchanged c p ↦ unchanged (cost ∙ c) (pre ∙ p)
          | reached x v w c f p ↦
              reached x (same_visited d x ∙ v) w (omega (arith, c, cost, same_cost d x v))
                (omega (arith, f, cost)) (pre ∙ p)
        ]
    | inr (f, _, less, e) ↦
        let cost = ap (λ (z : Node). z.cost) e in
        reached u (same_visited d u ∙ k.here) (link_taken j k f)
          (omega (arith, cost, same_cost d u k.here))
          (omega (arith, cost, less, k.is_sound.base j, m)) (ap (λ (z : Node). z.pre) e)
  ]

  IsSound-relax :
      {u : ℕ} {l : Lsa} {ls : List Lsa} {ys zs : List Node}
      → Round db xs u (l ∷ ls) ys
      → IsRelaxed (node_at ys u).cost (node_at xs u).rid l ys zs
      → IsSound db xs zs
  IsSound-relax {u} {ys = ys} {zs} k d = record {
    same = SameNames-relax d k.is_sound.same;
    sound = λ j h. elim (d.each j) [
      | inl e ↦
          let q = ap (λ (x : Node). x.cost) e in
          subst (Walk db xs j) (sym q) (k.is_sound.sound j (omega (arith, h, q)))
      | inr (f, _, _, e) ↦
          goes_on j (node_at zs j).cost (k.is_sound.sound u k.finite) (link_taken j k f)
            (ap (λ (x : Node). x.cost) e)
    ];
    base = λ j. omega (arith, less_cost d j, k.is_sound.base j);
    origin = λ j. Origin-relax j (k.is_sound.bound j) k d;
    bound = k.is_sound.bound;
  }

  pub Round-relax :
      {u : ℕ} {l : Lsa} {ls : List Lsa} {ys zs : List Node}
      → Round db xs u (l ∷ ls) ys
      → IsRelaxed (node_at ys u).cost (node_at xs u).rid l ys zs
      → Round db xs u ls zs
  unfolding LeadsTo
  Round-relax {u} {l} {ls} {ys} {zs} k d =
      let back = λ (x : ℕ) (v : (node_at zs x).visited ≡ true). sym (same_visited d x) ∙ v in
      record {
        is_sound = IsSound-relax k d;
        here = same_visited d u ∙ k.here;
        finite = omega (arith, same_cost d u k.here, k.finite);
        closed = λ x v vis edge. elim (k.closed x v (back x vis) edge) [
          | inl le ↦ inl (omega (arith, le, less_cost d v, same_cost d x (back x vis)))
          | inr (q, inr rest) ↦ inr (q, rest)
          | inr (q, inl f) ↦
              let found = k.is_sound.same.names l.rid ∙ f in
              inl (
                subst (λ y. (node_at zs v).cost ≤ (node_at zs y).cost + 1) (sym q)
                  (elim (Bool-cases (node_at ys v).visited) [
                    | inl t ↦ omega (arith, k.below v t, less_cost d v, same_cost d u k.here)
                    | inr n ↦ omega (arith, d.hit v found n, same_cost d u k.here)
                  ]))
        ];
        below = λ x v.
            omega (arith, k.below x (back x v), same_cost d x (back x v), same_cost d u k.here);
        above = λ w n. elim (d.each w) [
          | inl e ↦ omega (
            arith,
            k.above w (sym (same_visited d w) ∙ n),
            ap (λ (x : Node). x.cost) e,
            same_cost d u k.here,
          )
          | inr (_, _, _, e) ↦ omega (arith, ap (λ (x : Node). x.cost) e, same_cost d u k.here)
        ];
        todo = λ v t. k.todo v (inr t);
      }
