-- ===== src/Mospf/Invariant/Sending.antt =====
-- The rounds of the threads that send, and hellos that come in.
use njucn_lab.Common.{
  ℕ, ◌-◌, ◌≡◌, inl, inr, refl, sym, subst, ◌∙◌, List, [], ◌∷◌, Bool, true, false, ◌&&◌, Bool-cases,
  ◌==◌, if◌then◌else◌,
}
use njucn_lab.Net.Bytes.{get16, get32}
use njucn_lab.Router.Rtable.{Iface}
use njucn_lab.Router.Icmp.{ip_saddr}
use njucn_lab.Mospf.Instance.{Nbr, NbrIface, Instance}
use njucn_lab.Mospf.Spf.Names.{EntriesDistinct}
use njucn_lab.Mospf.Proto.{mospf_default_helloint, mospf_checksum, mospf_rid, mospf_of, read_u16}
use njucn_lab.Mospf.Lsu.{
  send_mospf_hello, send_lsu_to, send_lsu_on, send_lsu_all, generate_mospf_lsu, send_mospf_lsu,
  lsu_tick, hello_ticks, hello_tick,
}
use njucn_lab.Mospf.Neighbors.{
  update_nbr_list, on_iface, update_nbr_list_via_hello, handle_mospf_hello, check_ifaces, nbr_tick,
}
use njucn_lab.Mospf.Invariant.{IsWell, IfacesWell}
use njucn_lab.Mospf.Invariant.Lists.{
  update_nbr_list-IfaceWell, IfacesWell-on_iface, IfacesWell-check,
}

-- What sending leaves alone.
record IsSending (s t : Instance) : Type 0 where
  name : t.router_id ≡ s.router_id
  db : t.mospf_db ≡ s.mospf_db
  ifaces : t.iface_list ≡ s.iface_list

IsSending-trans : {s t u : Instance} → IsSending s t → IsSending t u → IsSending s u
IsSending-trans a b = record {
  name = b.name ∙ a.name;
  db = b.db ∙ a.db;
  ifaces = b.ifaces ∙ a.ifaces;
}

send_lsu_on-IsSending :
    (msg : List ℕ) (iface : Iface) (ns : List Nbr) (s : Instance)
    → IsSending s (send_lsu_on msg iface ns s)
unfolding send_lsu_on send_lsu_to
send_lsu_on-IsSending msg iface [] s = record { name = refl; db = refl; ifaces = refl }
send_lsu_on-IsSending msg iface (n ∷ ns) s =
    IsSending-trans (record { name = refl; db = refl; ifaces = refl })
      (send_lsu_on-IsSending msg iface ns (send_lsu_to msg iface n s))

send_lsu_all-IsSending :
    (msg : List ℕ) (is : List NbrIface) (s : Instance) → IsSending s (send_lsu_all msg is s)
unfolding send_lsu_all
send_lsu_all-IsSending msg [] s = record { name = refl; db = refl; ifaces = refl }
send_lsu_all-IsSending msg (i ∷ is) s =
    IsSending-trans (send_lsu_on-IsSending msg i.iface i.nbr_list s)
      (send_lsu_all-IsSending msg is (send_lsu_on msg i.iface i.nbr_list s))

pub send_mospf_lsu-ifaces : (s : Instance) → (send_mospf_lsu s).iface_list ≡ s.iface_list
unfolding send_mospf_lsu
send_mospf_lsu-ifaces s = (send_lsu_all-IsSending (generate_mospf_lsu s) s.iface_list s).ifaces

IsWell-sent : {s t : Instance} → IsSending s t → IsWell s → IsWell t
IsWell-sent a h = record {
  one_entry = subst EntriesDistinct (sym a.db) h.one_entry;
  no_own = rw (a.db, a.name) h.no_own;
  neighbors = subst IfacesWell (sym a.ifaces) h.neighbors;
}

pub IsWell-send_mospf_lsu : {s : Instance} → IsWell s → IsWell (send_mospf_lsu s)
unfolding send_mospf_lsu
IsWell-send_mospf_lsu {s} h = IsWell-sent (send_lsu_all-IsSending _ s.iface_list s) h

pub IsWell-if : {s t : Instance} (b : Bool) → IsWell s → IsWell t → IsWell (if b then s else t)
IsWell-if true h k = h
IsWell-if false h k = k

pub IsWell-ifaces :
    {s : Instance} {is : List NbrIface}
    → IsWell s
    → IfacesWell is
    → IsWell (record s { iface_list = is })
IsWell-ifaces h k = record { one_entry = h.one_entry; no_own = h.no_own; neighbors = k }

pub IsWell-lsu_tick : (s : Instance) → IsWell s → IsWell (lsu_tick s)
unfolding lsu_tick
IsWell-lsu_tick s h =
    let k : IsWell (record s { lsuint = s.lsuint - 1 }) = record {
      one_entry = h.one_entry;
      no_own = h.no_own;
      neighbors = h.neighbors;
    } in
    let sent = IsWell-send_mospf_lsu k in
    IsWell-if (s.lsuint - 1 == 0)
      (record { one_entry = sent.one_entry; no_own = sent.no_own; neighbors = sent.neighbors }) k

-- The walk that sends hellos.
hello_ticks-IsSending : (is : List NbrIface) (s : Instance) → IsSending s (hello_ticks is s).1
unfolding hello_ticks send_mospf_hello
hello_ticks-IsSending [] s = record { name = refl; db = refl; ifaces = refl }
hello_ticks-IsSending (i ∷ is) s = elim (Bool-cases (i.helloint - 1 == 0)) [
  | inl t ↦ rw t (
      IsSending-trans (record { name = refl; db = refl; ifaces = refl })
        (hello_ticks-IsSending is (send_mospf_hello i.iface s)))
  | inr t ↦ rw t (hello_ticks-IsSending is s)
]

IfacesWell-hello :
    (is : List NbrIface) (s : Instance) → IfacesWell is → IfacesWell (hello_ticks is s).0
unfolding hello_ticks
IfacesWell-hello [] s h = tt
IfacesWell-hello (i ∷ is) s h = (h.0, IfacesWell-hello is _ h.1)

pub IsWell-hello_tick : (s : Instance) → IsWell s → IsWell (hello_tick s)
unfolding hello_tick
IsWell-hello_tick s h =
    IsWell-ifaces (IsWell-sent (hello_ticks-IsSending s.iface_list s) h)
      (IfacesWell-hello s.iface_list s h.neighbors)

pub IsWell-check_ifaces :
    (s : Instance) → IsWell s → IsWell (record s { iface_list = (check_ifaces s.iface_list).0 })
IsWell-check_ifaces s h = IsWell-ifaces h (IfacesWell-check s.iface_list h.neighbors)

pub IsWell-nbr_tick : (s : Instance) → IsWell s → IsWell (nbr_tick s)
unfolding nbr_tick
IsWell-nbr_tick s h =
    let k = IsWell-check_ifaces s h in
    IsWell-if (check_ifaces s.iface_list).1 (IsWell-send_mospf_lsu k) k

pub IsWell-handle_mospf_hello :
    (iface : Iface) (packet : List ℕ) (s : Instance)
    → IsWell s
    → IsWell (handle_mospf_hello iface packet s)
unfolding handle_mospf_hello update_nbr_list_via_hello
IsWell-handle_mospf_hello iface packet s h =
    let f : NbrIface → NbrIface × Bool =
      update_nbr_list (mospf_rid (mospf_of packet)) (ip_saddr packet)
        (get32 (mospf_of packet) 16) in
    let k = IsWell-ifaces h (
      IfacesWell-on_iface iface.index f s.iface_list (λ i w. update_nbr_list-IfaceWell _ _ _ i w)
        h.neighbors) in
    IsWell-if
      (mospf_checksum (mospf_of packet) == read_u16 (mospf_of packet) 12
        && (get32 (mospf_of packet) 16 == iface.mask
            && get16 (mospf_of packet) 20 == mospf_default_helloint))
      (IsWell-if (on_iface iface.index f s.iface_list).1 (IsWell-send_mospf_lsu k) k) h
