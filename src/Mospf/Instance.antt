-- ===== src/Mospf/Instance.antt =====
-- What the daemon of code-exp7 keeps: `ustack_t` and the fields of `iface_info_t` that belong to the
-- protocol (include/base.h), and `mospf_nbr_t` (include/mospf_nbr.h).
use njucn_lab.Common.{ℕ, List}
use njucn_lab.Router.Rtable.{Iface}
use njucn_lab.Router.State.{Router}
use njucn_lab.Mospf.Database.{DbEntry}

pub record Nbr : Type 0 where
  pub nbr_id : ℕ
  pub nbr_ip : ℕ
  pub nbr_mask : ℕ
  pub alive : ℕ

pub record NbrIface : Type 0 where
  pub iface : Iface
  pub helloint : ℕ
  pub num_nbr : ℕ
  pub nbr_list : List Nbr

-- With the router's own state, which sends packets.
pub record Instance : Type 0 where
  pub area_id : ℕ
  pub router_id : ℕ
  pub sequence_num : ℕ
  pub lsuint : ℕ
  pub iface_list : List NbrIface
  pub mospf_db : List DbEntry
  pub router : Router
