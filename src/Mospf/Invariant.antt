-- ===== src/Mospf/Invariant.antt =====
-- What the threads of code-exp7/mospf_daemon.c and the handler of packets keep of the database and of
-- the neighbour lists.
pub mod Lists
pub mod Sending
pub mod Packets
pub mod Steps
pub mod Routing
pub mod Silence
use njucn_lab.Common.{ℕ, ◌≡◌, ◌≤◌, List, [], ◌∷◌, length}
use njucn_lab.Common.Keys.{IsDistinct}
use njucn_lab.Mospf.Database.{DbEntry, mospf_database_timeout}
use njucn_lab.Mospf.Instance.{Nbr, NbrIface, Instance}
use njucn_lab.Mospf.Spf.Names.{EntriesDistinct, NoEntry}

abbrev pub NbrsDistinct : List Nbr → Type 0
NbrsDistinct = IsDistinct (λ n. n.nbr_id)

-- The count is right, and no neighbour has two places.
abbrev pub IfacesWell : List NbrIface → Type 0
IfacesWell [] = Unit {0}
IfacesWell (i ∷ is) = ((i.num_nbr ≡ length i.nbr_list) × NbrsDistinct i.nbr_list) × IfacesWell is

pub record IsWell (s : Instance) : Type 0 where
  pub one_entry : EntriesDistinct s.mospf_db
  pub no_own : NoEntry s.router_id s.mospf_db
  pub neighbors : IfacesWell s.iface_list
