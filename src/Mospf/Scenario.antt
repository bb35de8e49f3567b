-- ===== src/Mospf/Scenario.antt =====
-- A router with two neighbours, and a third router behind one of them.
mod Running
use njucn_lab.Mospf.Ip.{receive_packet}
use njucn_lab.Mospf.Ip.{receive_ip}
use njucn_lab.Mospf.Proto.{store_checksum, mospf_checksum, lsas_bytes, read_lsas}
use njucn_lab.Net.Checksum.{checksum, checksum_late, sum_words, odd_byte}
use njucn_lab.Router.Icmp.{ip_init_hdr, ip_send_packet, icmp_send_packet}
use njucn_lab.Router.Rtable.{longest_prefix_match, load_rtable, clear_rtable}
use njucn_lab.Router.Ip.{refresh_checksum}
use njucn_lab.Mospf.Database.{handle_lsu, install_lsu}
use njucn_lab.Mospf.Lsu.{send_mospf_lsu, send_lsu_all, send_lsu_on, send_lsu_to, send_mospf_hello}
use njucn_lab.Mospf.Neighbors.{handle_mospf_hello, on_iface}
use njucn_lab.Mospf.Flood.{handle_mospf_lsu, learn_lsu, forward_lsu, with_ttl}
use njucn_lab.Common.{
  ◌==◌, if◌then◌else◌, ℕ, ◌+◌, ◌*◌, ◌≡◌, ◌≢◌, ◌<◌, refl, List, [], ◌∷◌, ◌++◌, map, Option, none,
  some, false, ◌>>=◌, replicate, length, arith,
}
use njucn_lab.Router.Rtable.{Iface, RtEntry, new_rt_entry}
use njucn_lab.Router.State.{Router}
use njucn_lab.Router.Icmp.{ip_daddr}
use njucn_lab.Mospf.Database.{DbEntry, Lsa, init_mospf_db}
use njucn_lab.Mospf.Instance.{Nbr, NbrIface, Instance}
use njucn_lab.Mospf.Spf.{
  Node, db_nodes, find_entry, add_self, add_nbr, add_nbrs, add_all_nbrs, all_nodes, pick_min,
  find_node, relax, relax_all, visit, dijkstra_loop, shortest_paths,
}
use njucn_lab.Mospf.Spf.Names.{NoneNamed}
use njucn_lab.Mospf.Spf.Present.{IsGraph}
use njucn_lab.Mospf.Spf.Shortest.{IsShortest, shortest_paths_lem}
use njucn_lab.Mospf.Routes.{
  no_pre, trace_back, find_nbr, nbr_of, has_route, add_route, lsa_routes, db_routes, mospf_dijkstra,
  spf_run,
}
use njucn_lab.Mospf.Routes.Table.{IsRouted}
use njucn_lab.Mospf.Proto.{mospf_all_spf_routers, mospf_packet, mospf_of}
use njucn_lab.Mospf.Lsu.{
  mospf_init, init_ifaces, hello_tick, hello_ticks, hello_message, generate_mospf_lsu, all_lsas,
  iface_lsas, count_lsas,
}
use njucn_lab.Mospf.Neighbors.{
  update_nbr_list, update_nbr_list_via_hello, same_subnet, refresh_nbr, check_nbrs, check_ifaces,
  nbr_tick,
}
use njucn_lab.Mospf.Flood.{
  lsu_copy, on_message, age_lsu, lsu_ttl, flood, forward_on, handle_mospf_packet,
}
use njucn_lab.Mospf.Flood.Copies.{IsCopy}
use njucn_lab.Mospf.Flood.Packets.{HoldsLsu, passed_on}
use njucn_lab.Mospf.Flood.Targets.{targets, copies, send_each, flood_lem}
use njucn_lab.Mospf.Exchange.Hello.{in_subnet, greeted, hello-arrives, update_nbr_list-nbr}
use njucn_lab.Mospf.Exchange.Update.{taken, advert}
use njucn_lab.Mospf.Exchange.Relay.{relayed, FitsFields, update-arrives}
use njucn_lab.Mospf.Invariant.{IsWell}
use njucn_lab.Mospf.Invariant.Steps.{
  start, then_step, packet, hello_round, nbr_round, Run-IsWell_from_init,
}
use njucn_lab.Mospf.Invariant.Routing.{Run-spf_run}
use njucn_lab.Mospf.Invariant.Silence.{nbr_rounds, left_after, nbr_rounds-left}

abbrev net : ℕ → Lsa
net rid = record { network = 0x0a000000 + rid * 256; mask = 0xffffff00; rid = rid }

abbrev entry : ℕ → List Lsa → DbEntry
entry rid array = record { rid = rid; seq = 1; alive = 40; array = array }

-- Router 4 is behind router 2.
abbrev topology : List DbEntry
topology = entry 2 (net 1 ∷ net 4 ∷ []) ∷ entry 3 (net 1 ∷ []) ∷ entry 4 (net 2 ∷ net 5 ∷ []) ∷ []

abbrev iface_of : ℕ → Iface
iface_of i = record {
  index = i;
  mac = replicate 6 i;
  ip = 0x0a000001 + i * 256;
  mask = 0xffffff00;
  name = 101 ∷ [];
}

abbrev nbr : ℕ → ℕ → Nbr
nbr i rid = record {
  nbr_id = rid;
  nbr_ip = 0x0a000002 + i * 256;
  nbr_mask = 0xffffff00;
  alive = 40;
}

abbrev port : ℕ → List Nbr → NbrIface
port i ns = record { iface = iface_of i; helloint = 5; num_nbr = length ns; nbr_list = ns }

abbrev ports : List NbrIface
ports = port 1 (nbr 1 2 ∷ []) ∷ port 2 (nbr 2 3 ∷ []) ∷ []

abbrev router : Router
router = record {
  rtable = [];
  entries = [];
  req_list = [];
  now = 0;
  rand = λ i. i;
  draws = 0;
  sent = [];
}

abbrev daemon : ℕ → List DbEntry → List NbrIface → Instance
daemon rid db is = record {
  area_id = 0;
  router_id = rid;
  sequence_num = 7;
  lsuint = 30;
  iface_list = is;
  mospf_db = db;
  router = router;
}

abbrev costs : Option (List Node) → List (ℕ × ℕ × ℕ)
costs none = []
costs (some nodes) = map (λ x. (x.rid, x.cost, x.pre)) nodes

shortest_costs :
    costs (shortest_paths 1 topology ports) ≡ (2, 1, 1) ∷ (3, 1, 1) ∷ (4, 2, 2) ∷ (1, 0, 0) ∷ []
unfolding shortest_paths all_nodes db_nodes find_entry add_self add_nbr add_nbrs add_all_nbrs
    pick_min find_node relax relax_all visit dijkstra_loop
shortest_costs = refl

-- The network of router 4 is reached through router 2.
abbrev routes : Option (List RtEntry) → List (ℕ × ℕ)
routes none = []
routes (some table) = map (λ e. (e.dest, e.gw)) table

routes_found :
    routes (mospf_dijkstra 1 topology ports [])
    ≡ (0x0a000100, 0x0a000102)
      ∷ (0x0a000400, 0x0a000102)
      ∷ (0x0a000200, 0x0a000102)
      ∷ (0x0a000500, 0x0a000102)
      ∷ []
unfolding mospf_dijkstra db_routes lsa_routes add_route has_route nbr_of find_nbr trace_back
    shortest_paths all_nodes db_nodes find_entry add_self add_nbr add_nbrs add_all_nbrs pick_min
    find_node relax relax_all visit dijkstra_loop new_rt_entry
routes_found = refl

shortest_paths_lem_example :
    (xs : List Node) × (zs : List Node) × IsGraph 1 topology ports xs
    × (shortest_paths 1 topology ports ≡ some zs)
    × IsShortest topology xs zs
shortest_paths_lem_example = shortest_paths_lem 1 topology ports

hello-arrives_example :
    handle_mospf_packet []
      (iface_of 2)
      (mospf_packet 9 (iface_of 2) mospf_all_spf_routers (hello_message 3 0 0xffffff00))
      (daemon 1 topology ports)
    ≡ some
        (update_nbr_list_via_hello (iface_of 2) 3 0x0a000201 0xffffff00 (daemon 1 topology ports))
hello-arrives_example =
    hello-arrives [] 9 3 (iface_of 2) (iface_of 2) (daemon 1 topology ports) refl (omega arith)
      (omega arith) (omega arith) (omega arith) refl

update_nbr_list-nbr_example :
    let (i', new) = update_nbr_list 6 0x0a000103 0xffffff00 (port 1 (nbr 1 2 ∷ [])) in
    (find_nbr 6 i'.nbr_list ≡ (
      if 6 == 6
      then greeted (iface_of 1) 6 0x0a000103 0xffffff00 (find_nbr 6 (nbr 1 2 ∷ []))
      else find_nbr 6 (nbr 1 2 ∷ [])))
    × (new ≡ elim (find_nbr 6 (nbr 1 2 ∷ [])) [
      | some _ ↦ false
      | none ↦ in_subnet (iface_of 1) 0x0a000103 0xffffff00
    ])
    × (i'.num_nbr + 1 ≡ 1 + length i'.nbr_list)
    × (i'.iface ≡ iface_of 1)
update_nbr_list-nbr_example = update_nbr_list-nbr 6 6 0x0a000103 0xffffff00 (port 1 (nbr 1 2 ∷ []))

-- Router 2 sends its links.
abbrev sender : Instance
sender = daemon 2 [] (port 1 (nbr 1 1 ∷ []) ∷ port 4 (nbr 4 4 ∷ []) ∷ [])

sender_fits : FitsFields sender
unfolding count_lsas all_lsas iface_lsas
sender_fits = record {
  rid = omega arith;
  aid = omega arith;
  seq = omega arith;
  nadv = omega arith;
  links = ((omega arith, omega arith, omega arith), ((omega arith, omega arith, omega arith), tt));
}

-- By way of router 4, which passes it on to an address of router 3.
update-arrives_example :
    handle_mospf_packet []
      (iface_of 2)
      (relayed (nbr 2 3 ∷ []) (mospf_packet 9 (iface_of 4) 0x0a000402 (generate_mospf_lsu sender)))
      (daemon 3 [] (port 2 (nbr 2 4 ∷ []) ∷ []))
    ≡ (taken [] (advert sender) (daemon 3 [] (port 2 (nbr 2 4 ∷ []) ∷ [])) >>= λ s. some (
        flood
          (iface_of 2)
          (relayed
            (nbr 2 3 ∷ [])
            (mospf_packet 9 (iface_of 4) 0x0a000402 (generate_mospf_lsu sender)))
          s))
update-arrives_example =
    update-arrives [] 9 0x0a000402 (iface_of 4) (iface_of 2) (nbr 2 3 ∷ []) sender
      (daemon 3 [] (port 2 (nbr 2 4 ∷ []) ∷ [])) refl sender_fits (omega arith, tt) refl
      (λ e. omega (arith, e))

-- An update with five hops left, and no links.
abbrev update : List ℕ
update = replicate 14 0 ++ (0x45 ∷ replicate 19 0) ++ (replicate 18 0 ++ (5 ∷ replicate 5 0))

update_holds : HoldsLsu update
update_holds = record { ip_hdr = omega arith; long = omega arith }

passed_on_example :
    (ip_daddr (lsu_copy (nbr 2 3) (on_message age_lsu update)) ≡ 0x0a000202)
    × IsCopy 4 (mospf_of update) (mospf_of (lsu_copy (nbr 2 3) (on_message age_lsu update)))
passed_on_example = passed_on (nbr 2 3) update update_holds (omega arith)

flood_lem_example :
    (lsu_ttl (mospf_of update) ≡ 1
      → flood (iface_of 1) update (daemon 1 topology ports) ≡ daemon 1 topology ports)
    × (lsu_ttl (mospf_of update) ≢ 1
        → lsu_ttl (mospf_of update) < 256
        → flood (iface_of 1) update (daemon 1 topology ports) ≡ record (daemon 1 topology ports) {
          router =
              send_each (copies (on_message age_lsu update) (targets (iface_of 1) ports)) router;
        })
flood_lem_example = flood_lem (iface_of 1) update (daemon 1 topology ports) update_holds

one_target : targets (iface_of 1) ports ≡ nbr 2 3 ∷ []
unfolding targets
one_target = refl

nbr_rounds-left_example :
    map (λ i. i.nbr_list) (nbr_rounds 3 (daemon 1 topology ports)).iface_list
    ≡ map (λ i. left_after 3 i.nbr_list) ports
nbr_rounds-left_example = nbr_rounds-left 3 (daemon 1 topology ports)

silent_gone : left_after 41 (nbr 1 2 ∷ []) ≡ []
unfolding left_after
silent_gone = refl
