-- ===== src/Mospf/Spf/Correct.antt =====
-- The search as a whole: a round keeps the invariant, the rounds end, and the costs are those of the
-- shortest walks.
use njucn_lab.Common.{
  ℕ, ◌<◌, ◌≡◌, ◌⊎◌, inl, inr, refl, sym, ap, subst, ◌∙◌, List, [], ◌∷◌, true, Bool-cases, length,
  set, length-set, get_or-set_self, ◌==◌, arith,
}
use njucn_lab.Mospf.Database.{DbEntry, Lsa}
use njucn_lab.Mospf.Spf.{Node, no_node, node_at, int_max, links, relax, relax_all, visit}
use njucn_lab.Mospf.Spf.Nodes.{
  IsRelaxed, relax-IsRelaxed, IsCheapest, AllAtLeast, node_at-set, find_node-set,
}
use njucn_lab.Mospf.Spf.Walks.{LeadsTo, Edge, Walk, Origin, unchanged, reached, IsSound, Inv, Round}
use njucn_lab.Mospf.Spf.Rounds.{Round-relax, same_cost}

abbrev mark : List Node → ℕ → List Node
mark ys u = set ys u (record (node_at ys u) { visited = true })

-- What marking a node as visited changes.
record IsMarked (u : ℕ) (ys zs : List Node) : Type 0 where
  costs : (j : ℕ) → (node_at zs j).cost ≡ (node_at ys j).cost
  pres : (j : ℕ) → (node_at zs j).pre ≡ (node_at ys j).pre
  rids : (j : ℕ) → (node_at zs j).rid ≡ (node_at ys j).rid
  here : (node_at zs u).visited ≡ true
  there : (j : ℕ) → (j ≡ u) ⊎ ((node_at zs j).visited ≡ (node_at ys j).visited)

same_at :
    {A : Type 0} (f : Node → A) (ys : List Node) (u j : ℕ)
    → u < length ys
    → f (record (node_at ys u) { visited = true }) ≡ f (node_at ys u)
    → f (node_at (mark ys u) j) ≡ f (node_at ys j)
same_at f ys u j h e = elim (Bool-cases (j == u)) [
  | inl t ↦
      let same : u ≡ j = ground arith in
      ap f (node_at-set ys u j _ h) ∙ (rw t (e ∙ ap (λ k. f (node_at ys k)) same))
  | inr t ↦ ap f (node_at-set ys u j _ h) ∙ (rw t refl)
]

mark-IsMarked : (ys : List Node) (u : ℕ) → u < length ys → IsMarked u ys (mark ys u)
mark-IsMarked ys u h = record {
  costs = λ j. same_at (λ x. x.cost) ys u j h refl;
  pres = λ j. same_at (λ x. x.pre) ys u j h refl;
  rids = λ j. same_at (λ x. x.rid) ys u j h refl;
  here = ap (λ (x : Node). x.visited) (get_or-set_self ys u _ no_node h);
  there = λ j. elim (Bool-cases (j == u)) [
    | inl t ↦ inl (ground arith)
    | inr t ↦ inr (ap (λ (x : Node). x.visited) (node_at-set ys u j _ h) ∙ (rw t refl))
  ];
}

module _ (db : List DbEntry) (xs : List Node) where
  Origin-mark :
      {u : ℕ} {ys zs : List Node}
      → IsMarked u ys zs
      → (j : ℕ) → Origin db xs ys j
      → Origin db xs zs j
  Origin-mark {u} d j (unchanged c p) = unchanged (d.costs j ∙ c) (d.pres j ∙ p)
  Origin-mark {u} {ys} {zs} d j (reached x v w c f p) =
      reached x
        (elim (d.there x) [
          | inl q ↦ subst (λ k. (node_at zs k).visited ≡ true) (sym q) d.here
          | inr e ↦ e ∙ v
        ])
        w (omega (arith, c, d.costs j, d.costs x)) (omega (arith, f, d.costs j)) (d.pres j ∙ p)

  IsSound-mark :
      (u : ℕ) (ys : List Node) → u < length ys → IsSound db xs ys → IsSound db xs (mark ys u)
  IsSound-mark u ys h s =
      let d = mark-IsMarked ys u h in
      record {
        same = record {
          size = length-set ys u _ ∙ s.same.size;
          names = λ rid. find_node-set 0 rid u _ ys refl ∙ s.same.names rid;
          rids = λ j. d.rids j ∙ s.same.rids j;
        };
        sound =
            λ j f. subst (Walk db xs j) (sym (d.costs j)) (s.sound j (omega (arith, f, d.costs j)));
        base = λ j. omega (arith, d.costs j, s.base j);
        origin = λ j. Origin-mark d j (s.origin j);
        bound = s.bound;
      }

  Round-mark :
      (u : ℕ) (ys : List Node)
      → Inv db xs ys
      → IsCheapest ys u
      → (node_at ys u).cost < int_max
      → Round db xs u (links (node_at xs u).rid db) (mark ys u)
  unfolding Edge AllAtLeast
  Round-mark u ys i p f =
      let d = mark-IsMarked ys u p.inside in
      let old : (x : ℕ)
          → (node_at (mark ys u) x).visited ≡ true
          → (x ≡ u) ⊎ ((node_at ys x).visited ≡ true) =
        λ x v. elim (d.there x) [ inl q ↦ inl q | inr e ↦ inr (sym e ∙ v) ] in
      record {
        is_sound = IsSound-mark u ys p.inside i.is_sound;
        here = d.here;
        finite = omega (arith, f, d.costs u);
        closed = λ x v vis edge. elim (old x vis) [
          | inl q ↦ inr (q, subst (λ k. LeadsTo db xs v (links (node_at xs k).rid db)) q edge)
          | inr t ↦ inl (omega (arith, i.closed x v t edge, d.costs x, d.costs v))
        ];
        below = λ x v. elim (old x v) [
          | inl q ↦ omega (arith, ap (λ k. (node_at (mark ys u) k).cost) q)
          | inr t ↦ omega (arith, i.order x u t p.unvisited, d.costs x, d.costs u)
        ];
        above = λ w n. elim (d.there w) [
          | inl q ↦ omega (arith, ap (λ k. (node_at (mark ys u) k).cost) q)
          | inr e ↦ omega (arith, p.cheapest w (sym e ∙ n), d.costs w, d.costs u)
        ];
        todo = λ v t. t;
      }

  Inv-relax_all :
      (c r u : ℕ) (ls : List Lsa) (ys : List Node)
      → Round db xs u ls ys
      → c ≡ (node_at ys u).cost
      → r ≡ (node_at xs u).rid
      → Inv db xs (relax_all c r ls ys)
  unfolding relax_all LeadsTo
  Inv-relax_all c r u [] ys k e q = record {
    is_sound = k.is_sound;
    closed = λ x v vis edge. elim (k.closed x v vis edge) [ inl le ↦ le | inr (_, t) ↦ absurd t ];
    order = λ x w v n. omega (arith, k.below x v, k.above w n);
  }
  Inv-relax_all c r u (l ∷ ls) ys k e q =
      let d =
        subst (λ a. IsRelaxed a (node_at xs u).rid l ys (relax c r ys l)) e
          (subst (λ b. IsRelaxed c b l ys (relax c r ys l)) q (relax-IsRelaxed c r ys l)) in
      Inv-relax_all c r u ls (relax c r ys l) (Round-relax db xs k d)
        (e ∙ sym (same_cost d u k.here)) q

  pub Inv-visit :
      (u : ℕ) (ys : List Node)
      → Inv db xs ys
      → IsCheapest ys u
      → (node_at ys u).cost < int_max
      → Inv db xs (visit db u ys)
  unfolding visit
  Inv-visit u ys i p f =
      let d = mark-IsMarked ys u p.inside in
      let name = i.is_sound.same.rids u in
      Inv-relax_all (node_at ys u).cost (node_at ys u).rid u (links (node_at ys u).rid db)
        (mark ys u)
        (subst (λ k. Round db xs u (links k db) (mark ys u)) (sym name) (Round-mark u ys i p f))
        (sym (d.costs u)) name
