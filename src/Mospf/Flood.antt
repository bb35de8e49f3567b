-- ===== src/Mospf/Flood.antt =====
-- handle_mospf_lsu and handle_mospf_packet of code-exp7/mospf_daemon.c, and checking_database_thread.
pub mod Copies
pub mod Packets
pub mod Targets
use njucn_lab.Common.{
  ℕ, ◌+◌, ◌%◌, List, [], ◌∷◌, Option, none, some, Bool, true, false, not, ◌&&◌, ◌||◌, ◌>>=◌, blit,
  set, get_or, take, drop, ◌++◌, ltb, ◌==◌, if◌then◌else◌,
}
use njucn_lab.Net.Bytes.{be32, le16, get16, get32}
use njucn_lab.Router.Rtable.{Iface, RtEntry}
use njucn_lab.Router.State.{Router, same_iface}
use njucn_lab.Router.Icmp.{ip_hdr_size, ip_send_packet}
use njucn_lab.Router.Ip.{refresh_checksum}
use njucn_lab.Mospf.Database.{Lsa, Lsu, install_lsu, check_database}
use njucn_lab.Mospf.Instance.{Nbr, NbrIface, Instance}
use njucn_lab.Mospf.Routes.{spf_run}
use njucn_lab.Mospf.Proto.{
  mospf_version, mospf_type_hello, mospf_type_lsu, mospf_checksum, store_checksum, mospf_rid,
  mospf_of, read_u16, read_lsas,
}
use njucn_lab.Mospf.Neighbors.{handle_mospf_hello}

abbrev pub lsu_seq : List ℕ → ℕ
lsu_seq msg = get16 msg 16

abbrev pub lsu_ttl : List ℕ → ℕ
lsu_ttl msg = get_or msg 18 0

abbrev pub lsu_nadv : List ℕ → ℕ
lsu_nadv msg = get32 msg 20

-- A change to the message of a packet.
abbrev pub on_message : (List ℕ → List ℕ) → List ℕ → List ℕ
on_message f packet = let off = 14 + ip_hdr_size packet in take off packet ++ f (drop off packet)

-- lsu->ttl = ttl, and the checksum anew.
unfoldable pub with_ttl : ℕ → List ℕ → List ℕ
with_ttl ttl msg = store_checksum (set msg 18 ttl)

-- lsu->ttl-- on a u8.
unfoldable pub age_lsu : List ℕ → List ℕ
age_lsu msg = with_ttl ((lsu_ttl msg + 255) % 256) msg

-- A copy for one neighbour.
unfoldable pub lsu_copy : Nbr → List ℕ → List ℕ
lsu_copy nbr packet =
    let ttl = lsu_ttl (mospf_of packet) in
    on_message (with_ttl ttl) (refresh_checksum (blit packet 30 (be32 nbr.nbr_ip)))

unfoldable pub forward_on : List ℕ → List Nbr → Router → Router
forward_on packet [] r = r
forward_on packet (n ∷ ns) r = forward_on packet ns (ip_send_packet (lsu_copy n packet) r)

-- To the neighbours on all interfaces but the one of arrival.
unfoldable pub forward_lsu : Iface → List ℕ → List NbrIface → Router → Router
forward_lsu iface packet [] r = r
forward_lsu iface packet (i ∷ is) r =
    let skipped = forward_lsu iface packet is r in
    let sent = forward_lsu iface packet is (forward_on packet i.nbr_list r) in
    if same_iface i.iface iface then skipped else sent

-- Step 6 of handle_mospf_lsu.
unfoldable pub flood : Iface → List ℕ → Instance → Instance
flood iface packet s =
    let aged = on_message age_lsu packet in
    if ltb 0 (lsu_ttl (mospf_of aged))
    then record s { router = forward_lsu iface aged s.iface_list s.router }
    else s

-- What the message advertises.
abbrev pub lsu_of : List ℕ → List Lsa → Lsu
lsu_of msg array = record { rid = mospf_rid msg; seq = lsu_seq msg; array = array }

-- Steps 3 to 5: whether the routes change does not depend on the advertisements, which are read only if
-- the entry does. `kernel` is what read_kernel_rtable finds.
unfoldable pub learn_lsu : List RtEntry → List ℕ → Instance → Option Instance
learn_lsu kernel msg s =
    let changed = do
      array ← read_lsas (lsu_nadv msg) (drop 24 msg)
      spf_run kernel (record s { mospf_db = (install_lsu (lsu_of msg array) s.mospf_db).0 })
    in let (db, new) = install_lsu (lsu_of msg []) s.mospf_db in
      if new then changed else some (record s { mospf_db = db })

-- The router's own packets are ignored. `none` is a read behind the end of the packet, or a search for
-- routes that does not end.
unfoldable pub handle_mospf_lsu : List RtEntry → Iface → List ℕ → Instance → Option Instance
handle_mospf_lsu kernel iface packet s =
    let msg = mospf_of packet in
    let learned = learn_lsu kernel msg s in
    if not (mospf_checksum msg == read_u16 msg 12) || mospf_rid msg == s.router_id
    then some s
    else learned >>= λ s'. some (flood iface packet s')

unfoldable pub handle_mospf_packet : List RtEntry → Iface → List ℕ → Instance → Option Instance
handle_mospf_packet kernel iface packet s =
    let msg = mospf_of packet in
    if not (get_or msg 0 0 == mospf_version)
    then some s
    else if not (read_u16 msg 12 == mospf_checksum msg)
    then some s
    else if not (get32 msg 8 == s.area_id)
    then some s
    else if get_or msg 1 0 == mospf_type_hello
    then some (handle_mospf_hello iface packet s)
    else if get_or msg 1 0 == mospf_type_lsu
    then handle_mospf_lsu kernel iface packet s
    else some s

-- A round of checking_database_thread, when nothing comes between the check, under mospf_lock, and the
-- routes that are computed after it.
unfoldable pub database_tick : List RtEntry → Instance → Option Instance
database_tick kernel s =
    let (db, changed) = check_database s.mospf_db in
    let s' = record s { mospf_db = db } in
    let routed = spf_run kernel s' in if changed then routed else some s'
