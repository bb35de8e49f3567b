-- ===== src/Mospf/Invariant/Packets.antt =====
-- Packets that come in, and the rounds that may compute the routes anew.
use njucn_lab.Common.{
  ℕ, ◌≡◌, ◌≢◌, inl, inr, refl, subst, List, [], Option, none, some, Bool, true, false, not, ◌||◌,
  ◌>>=◌, drop, Bool-cases, get_or, ltb, ◌==◌, arith, if◌then◌else◌,
}
use njucn_lab.Net.Bytes.{get16, get32}
use njucn_lab.Router.Rtable.{Iface, RtEntry}
use njucn_lab.Router.State.{Router}
use njucn_lab.Router.Icmp.{icmp_send_packet, ip_daddr}
use njucn_lab.Router.Arp.{handle_arp_packet}
use njucn_lab.Router.Ip.{ip_protocol}
use njucn_lab.Mospf.Database.{Lsu, install_lsu, check_database}
use njucn_lab.Mospf.Instance.{Instance}
use njucn_lab.Mospf.Routes.{mospf_dijkstra, spf_run}
use njucn_lab.Mospf.Proto.{
  mospf_version, mospf_type_hello, mospf_type_lsu, mospf_all_spf_routers, ipproto_mospf,
  mospf_checksum, mospf_rid, mospf_of, read_u16, read_lsas,
}
use njucn_lab.Mospf.Flood.{
  on_message, age_lsu, lsu_ttl, forward_lsu, flood, learn_lsu, lsu_of, handle_mospf_lsu,
  handle_mospf_packet, database_tick,
}
use njucn_lab.Mospf.Ip.{is_echo_request, forward_packet, receive_ip, receive_packet}
use njucn_lab.Mospf.Invariant.{IsWell}
use njucn_lab.Mospf.Invariant.Lists.{
  NoEntry-install, EntriesDistinct-install, NoEntry-check, EntriesDistinct-check,
}
use njucn_lab.Mospf.Invariant.Sending.{IsWell-if, IsWell-handle_mospf_hello}

-- Whatever a step returns.
abbrev pub Keeps : Option Instance → Type 0
Keeps o = (t : Instance) → o ≡ some t → IsWell t

Keeps-some : {s : Instance} → IsWell s → Keeps (some s)
Keeps-some {s} h t e = subst IsWell (let q : s ≡ t = cc in q) h

Keeps-if : {o p : Option Instance} (b : Bool) → Keeps o → Keeps p → Keeps (if b then o else p)
Keeps-if true h k = h
Keeps-if false h k = k

Keeps-bind :
    {A : Type 0} (o : Option A) (f : A → Option Instance)
    → ((a : A) → o ≡ some a → Keeps (f a))
    → Keeps (o >>= f)
Keeps-bind none f h t e = absurd (cc e)
Keeps-bind (some a) f h t e = h a refl t e

pub Keeps-spf_run : (kernel : List RtEntry) (s : Instance) → IsWell s → Keeps (spf_run kernel s)
unfolding spf_run
Keeps-spf_run kernel s h =
    Keeps-bind (mospf_dijkstra s.router_id s.mospf_db s.iface_list kernel) _ (λ table _.
      Keeps-some (record { one_entry = h.one_entry; no_own = h.no_own; neighbors = h.neighbors }))

IsWell-install :
    (u : Lsu) (s : Instance)
    → u.rid ≢ s.router_id
    → IsWell s
    → IsWell (record s { mospf_db = (install_lsu u s.mospf_db).0 })
IsWell-install u s n h = record {
  one_entry = EntriesDistinct-install u s.mospf_db h.one_entry;
  no_own = NoEntry-install u s.router_id s.mospf_db n h.no_own;
  neighbors = h.neighbors;
}

Keeps-learn_lsu :
    (kernel : List RtEntry) (msg : List ℕ) (s : Instance)
    → mospf_rid msg ≢ s.router_id
    → IsWell s
    → Keeps (learn_lsu kernel msg s)
unfolding learn_lsu
Keeps-learn_lsu kernel msg s n h =
    Keeps-if (install_lsu (lsu_of msg []) s.mospf_db).1
      (Keeps-bind (read_lsas _ (drop 24 msg)) _
        (λ array _. Keeps-spf_run kernel _ (IsWell-install (lsu_of msg array) s n h)))
      (Keeps-some (IsWell-install (lsu_of msg []) s n h))

IsWell-router : {s : Instance} (r : Router) → IsWell s → IsWell (record s { router = r })
IsWell-router r h = record { one_entry = h.one_entry; no_own = h.no_own; neighbors = h.neighbors }

IsWell-flood :
    (iface : Iface) (packet : List ℕ) (s : Instance) → IsWell s → IsWell (flood iface packet s)
unfolding flood
IsWell-flood iface packet s h =
    let aged = on_message age_lsu packet in
    IsWell-if (ltb 0 (lsu_ttl (mospf_of aged)))
      (IsWell-router (forward_lsu iface aged s.iface_list s.router) h) h

Keeps-handle_mospf_lsu :
    (kernel : List RtEntry) (iface : Iface) (packet : List ℕ) (s : Instance)
    → IsWell s
    → Keeps (handle_mospf_lsu kernel iface packet s)
unfolding handle_mospf_lsu
Keeps-handle_mospf_lsu kernel iface packet s h =
    let msg = mospf_of packet in
    let bad : Bool = not (mospf_checksum msg == read_u16 msg 12) in
    elim (Bool-cases (bad || mospf_rid msg == s.router_id)) [
      | inl t ↦ rw (handle_mospf_lsu, t) (Keeps-some h)
      | inr t ↦
          rw (handle_mospf_lsu, t)
            (Keeps-bind (learn_lsu kernel msg s) (λ s'. some (flood iface packet s'))
              (λ s' e. Keeps-some (
                IsWell-flood iface packet s'
                  (Keeps-learn_lsu kernel msg s (λ q. ground (arith, t, q)) h s' e))))
    ]

Keeps-handle_mospf_packet :
    (kernel : List RtEntry) (iface : Iface) (packet : List ℕ) (s : Instance)
    → IsWell s
    → Keeps (handle_mospf_packet kernel iface packet s)
unfolding handle_mospf_packet
Keeps-handle_mospf_packet kernel iface packet s h =
    let msg = mospf_of packet in
    Keeps-if (not (get_or msg 0 0 == mospf_version)) (Keeps-some h) (
      Keeps-if (not (read_u16 msg 12 == mospf_checksum msg)) (Keeps-some h) (
        Keeps-if (not (get32 msg 8 == s.area_id)) (Keeps-some h) (
          Keeps-if (get_or msg 1 0 == mospf_type_hello)
            (Keeps-some (IsWell-handle_mospf_hello iface packet s h))
            (Keeps-if (get_or msg 1 0 == mospf_type_lsu)
              (Keeps-handle_mospf_lsu kernel iface packet s h) (Keeps-some h)))))

pub Keeps-receive_packet :
    (kernel : List RtEntry) (iface : Iface) (packet : List ℕ) (s : Instance)
    → IsWell s
    → Keeps (receive_packet kernel iface packet s)
unfolding receive_packet receive_ip
Keeps-receive_packet kernel iface packet s h =
    let mospf = Keeps-handle_mospf_packet kernel iface packet s h in
    let is_mospf = ip_protocol packet == ipproto_mospf in
    Keeps-if (get16 packet 12 == 0x0800)
      (Keeps-if (ip_daddr packet == iface.ip)
        (Keeps-if (ip_protocol packet == 1)
          (Keeps-some (
            IsWell-if (is_echo_request packet)
              (IsWell-router (icmp_send_packet packet 0 0 s.router) h) h))
          (Keeps-if is_mospf mospf (Keeps-some h)))
        (Keeps-if (ip_daddr packet == mospf_all_spf_routers)
          (Keeps-if is_mospf mospf (λ t e. absurd (cc e)))
          (Keeps-some (IsWell-router (forward_packet (ip_daddr packet) packet s.router) h))))
      (Keeps-if (get16 packet 12 == 0x0806)
        (Keeps-some (IsWell-router (handle_arp_packet iface packet s.router) h)) (Keeps-some h))

pub IsWell-check_database :
    (s : Instance) → IsWell s → IsWell (record s { mospf_db = (check_database s.mospf_db).0 })
IsWell-check_database s h = record {
  one_entry = EntriesDistinct-check s.mospf_db h.one_entry;
  no_own = NoEntry-check s.router_id s.mospf_db h.no_own;
  neighbors = h.neighbors;
}

pub Keeps-database_tick :
    (kernel : List RtEntry) (s : Instance) → IsWell s → Keeps (database_tick kernel s)
unfolding database_tick
Keeps-database_tick kernel s h =
    let k = IsWell-check_database s h in
    Keeps-if (check_database s.mospf_db).1 (Keeps-spf_run kernel _ k) (Keeps-some k)
