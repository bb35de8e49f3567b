-- ===== src/Mospf/Routes/Lookup.antt =====
-- The searches for an entry, a neighbour and a route, when what they look for is missing or there.
use njucn_lab.Common.{
  ℕ, ◌≡◌, inl, inr, refl, List, [], ◌∷◌, ◌++◌, none, true, Option-cases, Bool-cases, ◌==◌, arith,
}
use njucn_lab.Common.Keys.{Absent}
use njucn_lab.Router.Rtable.{RtEntry}
use njucn_lab.Mospf.Database.{DbEntry}
use njucn_lab.Mospf.Instance.{Nbr, NbrIface}
use njucn_lab.Mospf.Spf.{find_entry}
use njucn_lab.Mospf.Spf.Start.{NoNbr}
use njucn_lab.Mospf.Spf.Names.{NoEntry}
use njucn_lab.Mospf.Routes.{find_nbr, nbr_of, has_route}

pub find_entry-missing : (k : ℕ) (db : List DbEntry) → NoEntry k db → find_entry k db ≡ none
unfolding find_entry
find_entry-missing k [] h = refl
find_entry-missing k (e ∷ es) h = ground (arith, h.0, find_entry-missing k es h.1)

find_nbr-none : (k : ℕ) (ns : List Nbr) → find_nbr k ns ≡ none → Absent (λ (n : Nbr). n.nbr_id) k ns
unfolding find_nbr
find_nbr-none k [] h = tt
find_nbr-none k (n ∷ ns) h = elim (Bool-cases (n.nbr_id == k)) [
  | inl t ↦ absurd (ground (arith, h, t))
  | inr t ↦ ((λ q. ground (arith, t, q)), find_nbr-none k ns (ground (arith, h, t)))
]

pub nbr_of-none : (k : ℕ) (is : List NbrIface) → nbr_of k is ≡ none → NoNbr k is
unfolding nbr_of
nbr_of-none k [] h = tt
nbr_of-none k (i ∷ is) h = elim (Option-cases (find_nbr k i.nbr_list)) [
  | inl e ↦ (find_nbr-none k i.nbr_list e, nbr_of-none k is (ground (arith, h, e)))
  | inr (n, e) ↦ absurd (ground (arith, h, e))
]

find_nbr-missing :
    (k : ℕ) (ns : List Nbr) → Absent (λ (n : Nbr). n.nbr_id) k ns → find_nbr k ns ≡ none
unfolding find_nbr
find_nbr-missing k [] h = refl
find_nbr-missing k (n ∷ ns) h = ground (arith, h.0, find_nbr-missing k ns h.1)

pub nbr_of-missing : (k : ℕ) (is : List NbrIface) → NoNbr k is → nbr_of k is ≡ none
unfolding nbr_of
nbr_of-missing k [] h = refl
nbr_of-missing k (i ∷ is) h =
    ground (arith, find_nbr-missing k i.nbr_list h.0, nbr_of-missing k is h.1)

pub has_route-append :
    (dest mask : ℕ) (t u : List RtEntry)
    → has_route dest mask t ≡ true
    → has_route dest mask (t ++ u) ≡ true
unfolding has_route
has_route-append dest mask [] u h = absurd (ground (arith, h))
has_route-append dest mask (e ∷ es) u h = ground (arith, h, has_route-append dest mask es u)

pub has_route-last :
    (dest mask : ℕ) (t : List RtEntry) (e : RtEntry)
    → e.dest ≡ dest
    → e.mask ≡ mask
    → has_route dest mask (t ++ (e ∷ [])) ≡ true
unfolding has_route
has_route-last dest mask [] e p q = ground (arith, p, q)
has_route-last dest mask (x ∷ xs) e p q = ground (arith, has_route-last dest mask xs e p q)
