-- ===== src/Mospf/Invariant/Silence.antt =====
-- checking_nbr_thread of code-exp7/mospf_daemon.c, while no hello comes in.
use njucn_lab.Common.{
  ℕ, zero, suc, ◌-◌, ◌≡◌, refl, inl, inr, sym, ap, ap₂, ◌∙◌, List, [], ◌∷◌, map, Bool-cases, ltb,
  arith, if◌then◌else◌,
}
use njucn_lab.Mospf.Instance.{Nbr, NbrIface, Instance}
use njucn_lab.Mospf.Neighbors.{check_nbrs, check_ifaces, nbr_tick}
use njucn_lab.Mospf.Invariant.Sending.{send_mospf_lsu-ifaces}

unfoldable pub nbr_rounds : ℕ → Instance → Instance
nbr_rounds zero s = s
nbr_rounds (suc n) s = nbr_rounds n (nbr_tick s)

-- The neighbours who have at least `n` rounds left, with `n` rounds less.
unfoldable pub left_after : ℕ → List Nbr → List Nbr
left_after n [] = []
left_after n (x ∷ xs) =
    let rest = left_after n xs in
    if ltb x.alive n then rest else record x { alive = x.alive - n } ∷ rest

left_after-zero : (ns : List Nbr) → left_after 0 ns ≡ ns
unfolding left_after
left_after-zero [] = refl
left_after-zero (x ∷ xs) = ground (arith, left_after-zero xs)

left_after-suc :
    (n num : ℕ) (ns : List Nbr) → left_after n (check_nbrs num ns).1 ≡ left_after (suc n) ns
unfolding left_after check_nbrs
left_after-suc n num [] = refl
left_after-suc n num (x ∷ xs) =
    ground (arith, left_after-suc n num xs, left_after-suc n (num - 1) xs)

left_after-check :
    (n : ℕ) (is : List NbrIface)
    → map (λ i. left_after n i.nbr_list) (check_ifaces is).0
      ≡ map (λ i. left_after (suc n) i.nbr_list) is
unfolding check_ifaces
left_after-check n [] = refl
left_after-check n (i ∷ is) =
    ap₂ (λ x xs. x ∷ xs) (left_after-suc n i.num_nbr i.nbr_list) (left_after-check n is)

nbr_tick-ifaces : (s : Instance) → (nbr_tick s).iface_list ≡ (check_ifaces s.iface_list).0
unfolding nbr_tick
nbr_tick-ifaces s = elim (Bool-cases (check_ifaces s.iface_list).1) [
  | inl t ↦
      rw (nbr_tick, t)
        (send_mospf_lsu-ifaces (record s { iface_list = (check_ifaces s.iface_list).0 }))
  | inr t ↦ rw (nbr_tick, t) refl
]

map-left_after_zero :
    (is : List NbrIface) → map (λ i. i.nbr_list) is ≡ map (λ i. left_after 0 i.nbr_list) is
map-left_after_zero [] = refl
map-left_after_zero (i ∷ is) =
    ap₂ (λ x xs. x ∷ xs) (sym (left_after-zero i.nbr_list)) (map-left_after_zero is)

-- After any number of rounds in which nobody says hello, a neighbour is still there exactly if its life
-- was at least that number of rounds, and then its life is shorter by that number.
pub nbr_rounds-left :
    (n : ℕ) (s : Instance)
    → map (λ i. i.nbr_list) (nbr_rounds n s).iface_list
      ≡ map (λ i. left_after n i.nbr_list) s.iface_list
unfolding nbr_rounds
nbr_rounds-left zero s = map-left_after_zero s.iface_list
nbr_rounds-left (suc n) s =
    nbr_rounds-left n (nbr_tick s)
    ∙ ap (map (λ i. left_after n i.nbr_list)) (nbr_tick-ifaces s)
    ∙ left_after-check n s.iface_list
