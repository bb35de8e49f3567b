-- ===== src/Mospf/Invariant/Lists.antt =====
-- The changes to one list, of entries or of neighbours.
use njucn_lab.Common.{
  ℕ, ◌+◌, ◌-◌, ◌≡◌, ◌≢◌, inl, inr, refl, ap, subst, suc, List, [], ◌∷◌, none, some, Bool, length,
  length-append, Bool-cases, Option-cases, ltb, ◌==◌, arith,
}
use njucn_lab.Common.Keys.{Absent, IsDistinct-snoc}
use njucn_lab.Mospf.Database.{DbEntry, Lsu, install_lsu, check_database, mospf_database_timeout}
use njucn_lab.Mospf.Instance.{Nbr, NbrIface}
use njucn_lab.Mospf.Spf.Names.{EntriesDistinct, NoEntry}
use njucn_lab.Mospf.Neighbors.{
  refresh_nbr, update_nbr_list, on_iface, check_nbrs, check_ifaces, same_subnet, new_nbr,
}
use njucn_lab.Mospf.Invariant.{NbrsDistinct, IfacesWell}

pub NoEntry-install :
    (u : Lsu) (k : ℕ) (db : List DbEntry)
    → u.rid ≢ k
    → NoEntry k db
    → NoEntry k (install_lsu u db).0
unfolding install_lsu
NoEntry-install u k [] n h = (n, tt)
NoEntry-install u k (e ∷ es) n h = elim (Bool-cases (e.rid == u.rid)) [
  | inl t ↦ elim (Bool-cases (ltb e.seq u.seq)) [
    | inl l ↦ rw (t, l) (n, h.1)
    | inr l ↦ rw (t, l) (h.0, h.1)
  ]
  | inr t ↦ rw t (h.0, NoEntry-install u k es n h.1)
]

pub EntriesDistinct-install :
    (u : Lsu) (db : List DbEntry) → EntriesDistinct db → EntriesDistinct (install_lsu u db).0
unfolding install_lsu
EntriesDistinct-install u [] d = (tt, tt)
EntriesDistinct-install u (e ∷ es) d = elim (Bool-cases (e.rid == u.rid)) [
  | inl t ↦ elim (Bool-cases (ltb e.seq u.seq)) [
    | inl l ↦
        rw (t, l)
          (subst (λ k. NoEntry k es) (let q : e.rid ≡ u.rid = ground (arith, t) in q) d.0, d.1)
    | inr l ↦ rw (t, l) (d.0, d.1)
  ]
  | inr t ↦
      rw t (
        NoEntry-install u e.rid es (λ q. ground (arith, t, q)) d.0,
        EntriesDistinct-install u es d.1,
      )
]

pub NoEntry-check : (k : ℕ) (db : List DbEntry) → NoEntry k db → NoEntry k (check_database db).0
unfolding check_database
NoEntry-check k [] h = tt
NoEntry-check k (e ∷ es) h = elim (Bool-cases (e.alive - 1 == 0)) [
  | inl t ↦ rw t (NoEntry-check k es h.1)
  | inr t ↦ rw t (h.0, NoEntry-check k es h.1)
]

pub EntriesDistinct-check :
    (db : List DbEntry) → EntriesDistinct db → EntriesDistinct (check_database db).0
unfolding check_database
EntriesDistinct-check [] d = tt
EntriesDistinct-check (e ∷ es) d = elim (Bool-cases (e.alive - 1 == 0)) [
  | inl t ↦ rw t (EntriesDistinct-check es d.1)
  | inr t ↦ rw t (NoEntry-check e.rid es d.0, EntriesDistinct-check es d.1)
]

-- The neighbour is known: the list stays as long as it is, with the same names.
record IsRefreshed (ns ms : List Nbr) : Type 0 where
  size : length ms ≡ length ns
  absent : (k : ℕ) → Absent (λ (n : Nbr). n.nbr_id) k ns → Absent (λ (n : Nbr). n.nbr_id) k ms
  distinct : NbrsDistinct ns → NbrsDistinct ms

refresh_nbr-IsRefreshed :
    (rid : ℕ) (ns : List Nbr) (ms : List Nbr) → refresh_nbr rid ns ≡ some ms → IsRefreshed ns ms
unfolding refresh_nbr
refresh_nbr-IsRefreshed rid [] ms h = absurd (ground (arith, h))
refresh_nbr-IsRefreshed rid (n ∷ ns) ms h = elim (Bool-cases (n.nbr_id == rid)) [
  | inl t ↦
      let e : record n { alive = mospf_database_timeout } ∷ ns ≡ ms = ground (arith, h, t) in
      rw (← e) (record { size = refl; absent = λ k a. a; distinct = λ d. d })
  | inr t ↦ elim (Option-cases (refresh_nbr rid ns)) [
    | inl e ↦ absurd (ground (arith, h, t, e))
    | inr (ms', e) ↦
        let w = refresh_nbr-IsRefreshed rid ns ms' e in
        let q : n ∷ ms' ≡ ms = ground (arith, h, t, e) in
        rw (← q) (record {
          size = ap suc w.size;
          absent = λ k a. (a.0, w.absent k a.1);
          distinct = λ d. (w.absent n.nbr_id d.0, w.distinct d.1);
        })
  ]
]

refresh_nbr-none :
    (rid : ℕ) (ns : List Nbr) → refresh_nbr rid ns ≡ none → Absent (λ (n : Nbr). n.nbr_id) rid ns
unfolding refresh_nbr
refresh_nbr-none rid [] h = tt
refresh_nbr-none rid (n ∷ ns) h = elim (Bool-cases (n.nbr_id == rid)) [
  | inl t ↦ absurd (ground (arith, h, t))
  | inr t ↦ (
    λ q. ground (arith, t, q),
    elim (Option-cases (refresh_nbr rid ns)) [
      | inl e ↦ refresh_nbr-none rid ns e
      | inr (ms, e) ↦ absurd (ground (arith, h, t, e))
    ],
  )
]

abbrev IfaceWell : NbrIface → Type 0
IfaceWell i = (i.num_nbr ≡ length i.nbr_list) × NbrsDistinct i.nbr_list

pub update_nbr_list-IfaceWell :
    (rid ip mask : ℕ) (i : NbrIface) → IfaceWell i → IfaceWell (update_nbr_list rid ip mask i).0
unfolding update_nbr_list
update_nbr_list-IfaceWell rid ip mask i h = elim (Option-cases (refresh_nbr rid i.nbr_list)) [
  | inr (ns, e) ↦
      let w = refresh_nbr-IsRefreshed rid i.nbr_list ns e in
      rw (update_nbr_list, e) (omega (arith, w.size, h.0), w.distinct h.1)
  | inl e ↦ elim (Bool-cases (same_subnet i.iface ip mask)) [
    | inr t ↦ rw (update_nbr_list, e, t) h
    | inl t ↦
        let new = new_nbr rid ip mask in
        rw (update_nbr_list, e, t)
          (
            omega (arith, h.0, length-append i.nbr_list (new ∷ [])),
            IsDistinct-snoc (λ (n : Nbr). n.nbr_id) i.nbr_list new h.1
                (refresh_nbr-none rid i.nbr_list e),
          )
  ]
]

pub IfacesWell-on_iface :
    (index : ℕ) (f : NbrIface → NbrIface × Bool) (is : List NbrIface)
    → ((i : NbrIface) → IfaceWell i → IfaceWell (f i).0)
    → IfacesWell is
    → IfacesWell (on_iface index f is).0
unfolding on_iface
IfacesWell-on_iface index f [] k h = tt
IfacesWell-on_iface index f (i ∷ is) k h = elim (Bool-cases (i.iface.index == index)) [
  | inl t ↦ rw t (k i h.0, h.1)
  | inr t ↦ rw t (h.0, IfacesWell-on_iface index f is k h.1)
]

Absent-check :
    (k num : ℕ) (ns : List Nbr)
    → Absent (λ (n : Nbr). n.nbr_id) k ns
    → Absent (λ (n : Nbr). n.nbr_id) k (check_nbrs num ns).1
unfolding check_nbrs
Absent-check k num [] h = tt
Absent-check k num (n ∷ ns) h = elim (Bool-cases (n.alive == 0)) [
  | inl t ↦ rw t (Absent-check k (num - 1) ns h.1)
  | inr t ↦ rw t (h.0, Absent-check k num ns h.1)
]

-- `more` counts what stands before the list.
check_nbrs-size :
    (more num : ℕ) (ns : List Nbr)
    → num ≡ more + length ns
    → (check_nbrs num ns).0 ≡ more + length (check_nbrs num ns).1
unfolding check_nbrs
check_nbrs-size more num [] h = h
check_nbrs-size more num (n ∷ ns) h = elim (Bool-cases (n.alive == 0)) [
  | inl t ↦ rw t (check_nbrs-size more (num - 1) ns (omega (arith, h)))
  | inr t ↦ rw t (omega (arith, check_nbrs-size (more + 1) num ns (omega (arith, h))))
]

check_nbrs-distinct :
    (num : ℕ) (ns : List Nbr) → NbrsDistinct ns → NbrsDistinct (check_nbrs num ns).1
unfolding check_nbrs
check_nbrs-distinct num [] d = tt
check_nbrs-distinct num (n ∷ ns) d = elim (Bool-cases (n.alive == 0)) [
  | inl t ↦ rw t (check_nbrs-distinct (num - 1) ns d.1)
  | inr t ↦ rw t (Absent-check n.nbr_id num ns d.0, check_nbrs-distinct num ns d.1)
]

pub IfacesWell-check : (is : List NbrIface) → IfacesWell is → IfacesWell (check_ifaces is).0
unfolding check_ifaces
IfacesWell-check [] h = tt
IfacesWell-check (i ∷ is) h = (
  (
    omega (arith, check_nbrs-size 0 i.num_nbr i.nbr_list (omega (arith, h.0.0))),
    check_nbrs-distinct i.num_nbr i.nbr_list h.0.1,
  ),
  IfacesWell-check is h.1,
)
