-- ===== src/Mospf/Invariant/Steps.antt =====
-- Every step of the daemon, and all runs of it.
use njucn_lab.Common.{ℕ, ◌≡◌, List, [], ◌∷◌, some}
use njucn_lab.Router.Rtable.{Iface, RtEntry}
use njucn_lab.Mospf.Database.{check_database, init_mospf_db}
use njucn_lab.Mospf.Instance.{NbrIface, Instance}
use njucn_lab.Mospf.Lsu.{send_mospf_lsu, lsu_tick, hello_tick, init_ifaces, mospf_init}
use njucn_lab.Mospf.Neighbors.{check_ifaces, nbr_tick}
use njucn_lab.Mospf.Flood.{database_tick}
use njucn_lab.Mospf.Routes.{spf_run}
use njucn_lab.Mospf.Ip.{receive_packet}
use njucn_lab.Mospf.Invariant.{IsWell, IfacesWell}
use njucn_lab.Mospf.Invariant.Sending.{
  IsWell-check_ifaces, IsWell-send_mospf_lsu, IsWell-lsu_tick, IsWell-hello_tick, IsWell-nbr_tick,
}
use njucn_lab.Mospf.Invariant.Packets.{
  IsWell-check_database, Keeps-spf_run, Keeps-receive_packet, Keeps-database_tick,
}

-- A step of the daemon: a packet comes in, or one of the four threads has its round. What two of them do
-- after they have given up mospf_lock may also come later, as a step of its own: sending the links after a
-- check of the neighbours, and computing routes after one of the database.
pub data Step (s : Instance) : Instance → Type 0 where
  packet :
      (kernel : List RtEntry) (iface : Iface) (packet : List ℕ) (t : Instance)
      → receive_packet kernel iface packet s ≡ some t
      → Step s t
  hello_round : Step s (hello_tick s)
  lsu_round : Step s (lsu_tick s)
  nbr_round : Step s (nbr_tick s)
  nbrs_checked : Step s (record s { iface_list = (check_ifaces s.iface_list).0 })
  links_sent : Step s (send_mospf_lsu s)
  database_checked : Step s (record s { mospf_db = (check_database s.mospf_db).0 })
  routes_computed : (kernel : List RtEntry) (t : Instance) → spf_run kernel s ≡ some t → Step s t
  database_round :
      (kernel : List RtEntry) (t : Instance) → database_tick kernel s ≡ some t → Step s t

pub data Run (s : Instance) : Instance → Type 0 where
  start : Run s s
  then_step : {t u : Instance} → Run s t → Step t u → Run s u

Step-IsWell : {s t : Instance} → Step s t → IsWell s → IsWell t
Step-IsWell {s} (packet kernel iface p t e) h = Keeps-receive_packet kernel iface p s h t e
Step-IsWell {s} hello_round h = IsWell-hello_tick s h
Step-IsWell {s} lsu_round h = IsWell-lsu_tick s h
Step-IsWell {s} nbr_round h = IsWell-nbr_tick s h
Step-IsWell {s} nbrs_checked h = IsWell-check_ifaces s h
Step-IsWell {s} links_sent h = IsWell-send_mospf_lsu h
Step-IsWell {s} database_checked h = IsWell-check_database s h
Step-IsWell {s} (routes_computed kernel t e) h = Keeps-spf_run kernel s h t e
Step-IsWell {s} (database_round kernel t e) h = Keeps-database_tick kernel s h t e

Run-IsWell : {s t : Instance} → Run s t → IsWell s → IsWell t
Run-IsWell start h = h
Run-IsWell (then_step r q) h = Step-IsWell q (Run-IsWell r h)

-- No interface counts a neighbour.
abbrev pub NoneCounted : List NbrIface → Type 0
NoneCounted [] = Unit {0}
NoneCounted (i ∷ is) = (i.num_nbr ≡ 0) × NoneCounted is

IfacesWell-init : (is : List NbrIface) → NoneCounted is → IfacesWell (init_ifaces is)
unfolding init_ifaces
IfacesWell-init [] h = tt
IfacesWell-init (i ∷ is) h = ((h.0, tt), IfacesWell-init is h.1)

-- After mospf_init, on interfaces that count no neighbour yet, every run of the daemon keeps this: the
-- database has one entry at most for each router and none for this router, and each interface counts
-- its neighbours right and has each of them once. A run is any sequence of packets and of rounds of the
-- four threads, whose rounds may be broken up where they give up mospf_lock.
pub Run-IsWell_from_init :
    (first : NbrIface) (others : List NbrIface) (s t : Instance)
    → NoneCounted (first ∷ others)
    → Run (mospf_init first others s) t
    → IsWell t
unfolding mospf_init init_mospf_db
Run-IsWell_from_init first others s t h r =
    Run-IsWell r
      (record { one_entry = tt; no_own = tt; neighbors = IfacesWell-init (first ∷ others) h })
