-- ===== src/Mospf/Neighbors.antt =====
-- The neighbour lists of code-exp7/mospf_daemon.c: update_nbr_list_via_hello, handle_mospf_hello and
-- checking_nbr_thread.
use Prim.Native.Nat.{bit_and}
use njucn_lab.Common.{
  ℕ, ◌+◌, ◌-◌, List, [], ◌∷◌, ◌++◌, Option, none, some, Bool, true, false, ◌&&◌, ◌||◌, ◌==◌,
  if◌then◌else◌,
}
use njucn_lab.Net.Bytes.{get16, get32}
use njucn_lab.Router.Rtable.{Iface}
use njucn_lab.Router.Icmp.{ip_saddr}
use njucn_lab.Mospf.Database.{mospf_database_timeout}
use njucn_lab.Mospf.Instance.{Nbr, NbrIface, Instance}
use njucn_lab.Mospf.Proto.{mospf_default_helloint, mospf_checksum, mospf_rid, mospf_of, read_u16}
use njucn_lab.Mospf.Lsu.{send_mospf_lsu}

abbrev put_nbr : Nbr → Option (List Nbr) → Option (List Nbr)
put_nbr n none = none
put_nbr n (some ns) = some (n ∷ ns)

-- The neighbour of that number lives longer; `none` if there is none.
unfoldable pub refresh_nbr : ℕ → List Nbr → Option (List Nbr)
refresh_nbr rid [] = none
refresh_nbr rid (n ∷ ns) =
    let rest = put_nbr n (refresh_nbr rid ns) in
    if n.nbr_id == rid then some (record n { alive = mospf_database_timeout } ∷ ns) else rest

abbrev pub new_nbr : ℕ → ℕ → ℕ → Nbr
new_nbr rid ip mask = record {
  nbr_id = rid;
  nbr_ip = ip;
  nbr_mask = mask;
  alive = mospf_database_timeout;
}

-- (iface->ip & iface->mask) == (ip & mask), and equal masks.
unfoldable pub same_subnet : Iface → ℕ → ℕ → Bool
same_subnet iface ip mask = iface.mask == mask && bit_and iface.ip iface.mask == bit_and ip mask

-- What a hello does to the interface it came in by; the Bool says that the neighbour is new.
unfoldable pub update_nbr_list : ℕ → ℕ → ℕ → NbrIface → NbrIface × Bool
update_nbr_list rid ip mask i = elim (refresh_nbr rid i.nbr_list) [
  | some ns ↦ (record i { nbr_list = ns }, false)
  | none ↦
      if same_subnet i.iface ip mask
      then (
        record i { num_nbr = i.num_nbr + 1; nbr_list = i.nbr_list ++ (new_nbr rid ip mask ∷ []) },
        true,
      )
      else (i, false)
]

-- The interface that a pointer is to, by its index.
unfoldable pub on_iface : ℕ → (NbrIface → NbrIface × Bool) → List NbrIface → List NbrIface × Bool
on_iface index f [] = ([], false)
on_iface index f (i ∷ is) =
    let rest = on_iface index f is in
    if i.iface.index == index then ((f i).0 ∷ is, (f i).1) else (i ∷ rest.0, rest.1)

unfoldable pub update_nbr_list_via_hello : Iface → ℕ → ℕ → ℕ → Instance → Instance
update_nbr_list_via_hello iface rid ip mask s =
    let (is, new) = on_iface iface.index (update_nbr_list rid ip mask) s.iface_list in
    let s' = record s { iface_list = is } in if new then send_mospf_lsu s' else s'

unfoldable pub handle_mospf_hello : Iface → List ℕ → Instance → Instance
handle_mospf_hello iface packet s =
    let msg = mospf_of packet in
    let mask = get32 msg 16 in
    if mospf_checksum msg == read_u16 msg 12
      && (mask == iface.mask && get16 msg 20 == mospf_default_helloint)
    then update_nbr_list_via_hello iface (mospf_rid msg) (ip_saddr packet) mask s
    else s

-- The walk of checking_nbr_thread over one list: the number of neighbours, the list, and whether any
-- neighbour is gone.
unfoldable pub check_nbrs : ℕ → List Nbr → ℕ × List Nbr × Bool
check_nbrs num_nbr [] = (num_nbr, [], false)
check_nbrs num_nbr (n ∷ ns) =
    let gone = check_nbrs (num_nbr - 1) ns in
    let stays = check_nbrs num_nbr ns in
    if n.alive == 0
    then (gone.0, gone.1, true)
    else (stays.0, record n { alive = n.alive - 1 } ∷ stays.1, stays.2)

unfoldable pub check_ifaces : List NbrIface → List NbrIface × Bool
check_ifaces [] = ([], false)
check_ifaces (i ∷ is) =
    let c = check_nbrs i.num_nbr i.nbr_list in
    let rest = check_ifaces is in
    (record i { num_nbr = c.0; nbr_list = c.1 } ∷ rest.0, c.2 || rest.1)

-- A round of the thread, when nothing comes between the check, under mospf_lock, and the sending after it.
unfoldable pub nbr_tick : Instance → Instance
nbr_tick s =
    let (is, updated) = check_ifaces s.iface_list in
    let s' = record s { iface_list = is } in if updated then send_mospf_lsu s' else s'
