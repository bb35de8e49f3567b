-- ===== src/Mospf/Lsu.antt =====
-- Sending in code-exp7/mospf_daemon.c: send_mospf_hello, generate_mospf_lsu, send_mospf_lsu, and the
-- threads that send periodically.
use Prim.Native.Nat.{bit_and}
use njucn_lab.Common.{
  ℕ, ◌+◌, ◌-◌, ◌*◌, ◌%◌, ◌^◌, List, [], ◌∷◌, ◌++◌, map, length, ◌==◌, if◌then◌else◌,
}
use njucn_lab.Router.Rtable.{Iface}
use njucn_lab.Router.State.{Router, iface_send_packet}
use njucn_lab.Router.Icmp.{ip_send_packet}
use njucn_lab.Mospf.Database.{Lsa, init_mospf_db}
use njucn_lab.Mospf.Instance.{Nbr, NbrIface, Instance}
use njucn_lab.Mospf.Proto.{
  mospf_type_hello, mospf_type_lsu, mospf_default_helloint, mospf_default_lsuint,
  mospf_all_spf_routers, mospf_init_hdr, mospf_init_hello, mospf_lsu_front, store_checksum,
  lsas_bytes, mospf_packet,
}

-- ip_init_hdr takes the identification from rand().
abbrev pub ip_id : Router → ℕ
ip_id r = r.rand r.draws % 2 ^ 16

abbrev pub with_draw : Router → Router
with_draw r = record r { draws = r.draws + 1 }

-- The message has 16 bytes of header and 8 of its own.
unfoldable pub hello_message : ℕ → ℕ → ℕ → List ℕ
hello_message router_id area_id mask =
    store_checksum (mospf_init_hdr mospf_type_hello 24 router_id area_id (mospf_init_hello mask))

unfoldable pub send_mospf_hello : Iface → Instance → Instance
send_mospf_hello iface s =
    let r = s.router in
    let msg = hello_message s.router_id s.area_id iface.mask in
    record s {
      router =
          iface_send_packet iface (mospf_packet (ip_id r) iface mospf_all_spf_routers msg)
            (with_draw r);
    }

-- The network of an interface with no neighbour, or one for each neighbour.
unfoldable pub iface_lsas : ℕ → NbrIface → List Lsa
iface_lsas router_id i =
    if i.num_nbr == 0
    then record { network = bit_and i.iface.ip i.iface.mask; mask = i.iface.mask; rid = router_id }
      ∷ []
    else map
        (λ n. record { network = bit_and n.nbr_ip n.nbr_mask; mask = n.nbr_mask; rid = n.nbr_id })
        i.nbr_list

unfoldable pub all_lsas : ℕ → List NbrIface → List Lsa
all_lsas router_id [] = []
all_lsas router_id (i ∷ is) = iface_lsas router_id i ++ all_lsas router_id is

-- The first loop, which counts what the second one fills in.
unfoldable pub count_lsas : List NbrIface → ℕ
count_lsas [] = 0
count_lsas (i ∷ is) = (if i.num_nbr == 0 then 1 else length i.nbr_list) + count_lsas is

unfoldable pub generate_mospf_lsu : Instance → List ℕ
generate_mospf_lsu s =
    let lsa_num = count_lsas s.iface_list in
    store_checksum (
      mospf_init_hdr mospf_type_lsu (24 + lsa_num * 12) s.router_id s.area_id
        (mospf_lsu_front s.sequence_num lsa_num ++ lsas_bytes (all_lsas s.router_id s.iface_list)))

-- One packet to a neighbour; the sequence number is a u16, and that of the next message.
unfoldable pub send_lsu_to : List ℕ → Iface → Nbr → Instance → Instance
send_lsu_to msg iface nbr s =
    let r = s.router in
    record s {
      sequence_num = (s.sequence_num + 1) % 2 ^ 16;
      router = ip_send_packet (mospf_packet (ip_id r) iface nbr.nbr_ip msg) (with_draw r);
    }

unfoldable pub send_lsu_on : List ℕ → Iface → List Nbr → Instance → Instance
send_lsu_on msg iface [] s = s
send_lsu_on msg iface (n ∷ ns) s = send_lsu_on msg iface ns (send_lsu_to msg iface n s)

unfoldable pub send_lsu_all : List ℕ → List NbrIface → Instance → Instance
send_lsu_all msg [] s = s
send_lsu_all msg (i ∷ is) s = send_lsu_all msg is (send_lsu_on msg i.iface i.nbr_list s)

unfoldable pub send_mospf_lsu : Instance → Instance
send_mospf_lsu s = send_lsu_all (generate_mospf_lsu s) s.iface_list s

-- A round of sending_mospf_lsu_thread.
unfoldable pub lsu_tick : Instance → Instance
lsu_tick s =
    let lsuint = s.lsuint - 1 in
    if lsuint == 0
    then record (send_mospf_lsu (record s { lsuint = lsuint })) { lsuint = mospf_default_lsuint }
    else record s { lsuint = lsuint }

-- A round of sending_mospf_hello_thread: the interfaces as they are left, and the state after the
-- packets.
unfoldable pub hello_ticks : List NbrIface → Instance → List NbrIface × Instance
hello_ticks [] s = ([], s)
hello_ticks (i ∷ is) s =
    let helloint = i.helloint - 1 in
    let due = helloint == 0 in
    let (rest, s') = hello_ticks is (if due then send_mospf_hello i.iface s else s) in
    (record i { helloint = if due then mospf_default_helloint else helloint } ∷ rest, s')

unfoldable pub hello_tick : Instance → Instance
hello_tick s = let (is, s') = hello_ticks s.iface_list s in record s' { iface_list = is }

unfoldable pub init_ifaces : List NbrIface → List NbrIface
init_ifaces [] = []
init_ifaces (i ∷ is) =
    record i { helloint = mospf_default_helloint; nbr_list = [] } ∷ init_ifaces is

-- The router is named by the address of its first interface.
unfoldable pub mospf_init : NbrIface → List NbrIface → Instance → Instance
mospf_init first others s = record s {
  area_id = 0;
  router_id = first.iface.ip;
  sequence_num = 0;
  lsuint = mospf_default_lsuint;
  iface_list = init_ifaces (first ∷ others);
  mospf_db = init_mospf_db;
}
