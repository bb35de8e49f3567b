-- ===== src/Mospf/Scenario/Running.antt =====
-- A run of the daemon: hellos of its own, then a hello and an update of a neighbour.
use njucn_lab.Mospf.Ip.{receive_packet}
use njucn_lab.Mospf.Ip.{receive_ip}
use njucn_lab.Mospf.Proto.{store_checksum, mospf_checksum, lsas_bytes, read_lsas}
use njucn_lab.Net.Checksum.{checksum, checksum_late, sum_words, odd_byte}
use njucn_lab.Router.Icmp.{ip_init_hdr, ip_send_packet, icmp_send_packet}
use njucn_lab.Router.Rtable.{longest_prefix_match, load_rtable, clear_rtable}
use njucn_lab.Router.Ip.{refresh_checksum}
use njucn_lab.Mospf.Database.{handle_lsu, install_lsu}
use njucn_lab.Mospf.Lsu.{send_mospf_lsu, send_lsu_all, send_lsu_on, send_lsu_to, send_mospf_hello}
use njucn_lab.Mospf.Neighbors.{handle_mospf_hello, on_iface}
use njucn_lab.Mospf.Flood.{handle_mospf_lsu, learn_lsu, forward_lsu, with_ttl}
use njucn_lab.Common.{ℕ, ◌≡◌, ◌≢◌, refl, List, [], ◌∷◌, map, some, arith}
use njucn_lab.Router.Rtable.{RtEntry, new_rt_entry}
use njucn_lab.Mospf.Database.{init_mospf_db}
use njucn_lab.Mospf.Instance.{NbrIface, Instance}
use njucn_lab.Mospf.Spf.{
  Node, db_nodes, find_entry, add_self, add_nbr, add_nbrs, add_all_nbrs, all_nodes, pick_min,
  find_node, relax, relax_all, visit, dijkstra_loop, shortest_paths,
}
use njucn_lab.Mospf.Spf.Names.{NoneNamed}
use njucn_lab.Mospf.Spf.Shortest.{IsShortest}
use njucn_lab.Mospf.Routes.{
  no_pre, trace_back, find_nbr, nbr_of, has_route, add_route, lsa_routes, db_routes, mospf_dijkstra,
  spf_run,
}
use njucn_lab.Mospf.Routes.Table.{IsRouted}
use njucn_lab.Mospf.Proto.{mospf_all_spf_routers, mospf_packet}
use njucn_lab.Mospf.Lsu.{
  mospf_init, init_ifaces, hello_tick, hello_ticks, hello_message, generate_mospf_lsu, all_lsas,
  iface_lsas, count_lsas,
}
use njucn_lab.Mospf.Neighbors.{
  update_nbr_list, update_nbr_list_via_hello, same_subnet, refresh_nbr, check_nbrs, check_ifaces,
  nbr_tick,
}
use njucn_lab.Mospf.Flood.{lsu_copy, age_lsu, flood, forward_on, handle_mospf_packet}
use njucn_lab.Mospf.Invariant.{IsWell}
use njucn_lab.Mospf.Invariant.Steps.{
  start, then_step, packet, hello_round, nbr_round, Run-IsWell_from_init,
}
use njucn_lab.Mospf.Invariant.Routing.{Run-spf_run}
use njucn_lab.Mospf.Scenario.{nbr, port, router, daemon, iface_of}

abbrev idle : List NbrIface
idle = port 2 [] ∷ []

-- The state after a round of hellos and one of the check of neighbours.
abbrev later : Instance
later = nbr_tick (hello_tick (mospf_init (port 1 []) idle (daemon 0 [] [])))

Run-IsWell_from_init_example : IsWell later
Run-IsWell_from_init_example =
    Run-IsWell_from_init (port 1 []) idle (daemon 0 [] []) later ((refl), (refl, tt))
      (then_step (then_step start hello_round) nbr_round)

-- From router 2 come a hello and then an update with two links, which the daemon has after that.
abbrev far : Instance
far = daemon 2 [] (port 1 (nbr 1 1 ∷ []) ∷ port 4 (nbr 4 4 ∷ []) ∷ [])

abbrev two_hello : List ℕ
two_hello =
    mospf_packet 9 (record (iface_of 1) { ip = 0x0a000102 }) mospf_all_spf_routers
      (hello_message 2 0 0xffffff00)

abbrev two_update : List ℕ
two_update =
    mospf_packet 9 (record (iface_of 1) { ip = 0x0a000102 }) 0x0a000101 (generate_mospf_lsu far)

-- The neighbour is there, and its update has come.
abbrev greeted_by_two : Instance
greeted_by_two =
    record (daemon 0x0a000101 [] (
      record (port 1 (nbr 1 2 ∷ [])) { helloint = 4 } ∷ record (port 2 []) { helloint = 4 } ∷ [])) {
        sequence_num = 1;
        router = record router { draws = 1 };
      }

abbrev informed : Instance
informed = record greeted_by_two {
  mospf_db =
      record {
        rid = 2;
        seq = 7;
        alive = 40;
        array =
            record { network = 0x0a000100; mask = 0xffffff00; rid = 1 }
            ∷ record { network = 0x0a000400; mask = 0xffffff00; rid = 4 }
            ∷ [];
      }
      ∷ [];
  router = record router {
    draws = 1;
    rtable =
        map (λ dest. new_rt_entry dest 0xffffff00 0x0a000102 (iface_of 1))
          (0x0a000100 ∷ 0x0a000400 ∷ []);
  };
}

hello_came : receive_packet [] (iface_of 1) two_hello later ≡ some greeted_by_two
unfolding receive_packet receive_ip handle_mospf_packet hello_message store_checksum mospf_checksum
    checksum checksum_late sum_words odd_byte ip_init_hdr handle_mospf_hello
    update_nbr_list_via_hello on_iface update_nbr_list refresh_nbr same_subnet send_mospf_lsu
    send_lsu_all send_lsu_on send_lsu_to generate_mospf_lsu all_lsas iface_lsas count_lsas
    lsas_bytes nbr_tick hello_tick hello_ticks check_ifaces check_nbrs mospf_init init_ifaces
    init_mospf_db ip_send_packet longest_prefix_match icmp_send_packet send_mospf_hello
hello_came = refl

update_came : receive_packet [] (iface_of 1) two_update greeted_by_two ≡ some informed
unfolding receive_packet receive_ip handle_mospf_packet hello_message store_checksum mospf_checksum
    checksum checksum_late sum_words odd_byte ip_init_hdr handle_mospf_hello
    update_nbr_list_via_hello on_iface update_nbr_list refresh_nbr same_subnet send_mospf_lsu
    send_lsu_all send_lsu_on send_lsu_to generate_mospf_lsu all_lsas iface_lsas count_lsas
    lsas_bytes nbr_tick hello_tick hello_ticks check_ifaces check_nbrs mospf_init init_ifaces
    init_mospf_db ip_send_packet longest_prefix_match icmp_send_packet send_mospf_hello
    handle_mospf_lsu handle_lsu install_lsu learn_lsu read_lsas flood forward_lsu age_lsu with_ttl
    forward_on spf_run mospf_dijkstra db_routes lsa_routes add_route has_route nbr_of find_nbr
    trace_back shortest_paths all_nodes db_nodes find_entry add_self add_nbr add_nbrs add_all_nbrs
    pick_min find_node relax relax_all visit dijkstra_loop new_rt_entry load_rtable clear_rtable
    lsu_copy refresh_checksum
update_came = refl

informed_unnamed :
    (k : ℕ)
    → 0x0a000101 ≢ k
    → 2 ≢ k
    → NoneNamed k informed.router_id informed.mospf_db informed.iface_list
informed_unnamed k h two = record { router = h; entries = (two, tt); nbrs = ((two, tt), (tt, tt)) }

Run-spf_run_example :
    (table : List RtEntry) × (zs : List Node) × IsShortest informed.mospf_db
      (all_nodes 0x0a000101 informed.mospf_db informed.iface_list)
      zs
    × (spf_run [] informed
        ≡ some (record informed { router = record informed.router { rtable = table } }))
    × IsRouted 0x0a000101 informed.iface_list informed.mospf_db
        (all_nodes 0x0a000101 informed.mospf_db informed.iface_list)
        zs
        informed.mospf_db
        []
        (some table)
Run-spf_run_example =
    Run-spf_run [] (port 1 []) idle (daemon 0 [] []) informed (refl, (refl, tt))
      (then_step
        (then_step (then_step (then_step start hello_round) nbr_round)
          (packet [] (iface_of 1) two_hello greeted_by_two hello_came))
        (packet [] (iface_of 1) two_update informed update_came))
      (informed_unnamed 0 (λ e. omega (arith, e)) (λ e. omega (arith, e)))
      (informed_unnamed no_pre (λ e. omega (arith, e)) (λ e. omega (arith, e)))
