-- ===== src/Switch/Forward/Examples.antt =====
-- The switch of code-exp9 with three ports and two hosts.
use njucn_lab.Common.{ℕ, ◌≡◌, refl, List, [], ◌∷◌, ◌++◌, none, some, arith, if◌then◌else◌}
use njucn_lab.Switch.Hash.{mac_eq, hash8}
use njucn_lab.Switch.MacTable.{
  Table, init_mac_port_table, lookup_port, insert_mac_port, sweep_aged_mac_port_entry,
}
use njucn_lab.Switch.MacTable.Bucket.{still_fresh}
use njucn_lab.Switch.MacTable.Map.{
  IsValid, init-IsValid, find, find-insert_mac_port, find-sweep, insert_mac_port-IsValid,
}
use njucn_lab.Switch.Forward.{receive, sweep, handle_packet, run, is_broadcast_mac}
use njucn_lab.Switch.Forward.Ports.{Elsewhere, sent_on, handle_packet-Elsewhere}
use njucn_lab.Switch.Forward.Learning.{run-IsValid, reply_is_unicast}

abbrev ports : List ℕ
ports = 1 ∷ 2 ∷ 3 ∷ []

abbrev alice : List ℕ
alice = 0 ∷ 0 ∷ 0 ∷ 0 ∷ 0 ∷ 0xa ∷ []

abbrev bob : List ℕ
bob = 0 ∷ 0 ∷ 0 ∷ 0 ∷ 0 ∷ 0xb ∷ []

abbrev everybody : List ℕ
everybody = 255 ∷ 255 ∷ 255 ∷ 255 ∷ 255 ∷ 255 ∷ []

abbrev ask : List ℕ
ask = bob ++ alice ++ (8 ∷ 0 ∷ 1 ∷ [])

abbrev answer : List ℕ
answer = alice ++ bob ++ (8 ∷ 0 ∷ 2 ∷ [])

abbrev shout : List ℕ
shout = everybody ++ alice ++ (8 ∷ 6 ∷ [])

-- Alice was heard on port 1 at time 100.
abbrev heard : Table
heard = insert_mac_port alice 1 100 init_mac_port_table

lookups : (lookup_port alice heard ≡ some 1) × (lookup_port bob heard ≡ none)
unfolding lookup_port insert_mac_port init_mac_port_table hash8 mac_eq
lookups = (refl, refl)

find-insert_mac_port_example : find bob (insert_mac_port alice 1 100 init_mac_port_table) ≡ (
    if mac_eq alice bob
    then some (record { mac = alice; iface = 1; visited = 100 })
    else find bob init_mac_port_table)
find-insert_mac_port_example = find-insert_mac_port bob alice 1 100 init-IsValid

find-sweep_example :
    find alice (sweep_aged_mac_port_entry 140 heard).1 ≡ still_fresh 140 (find alice heard)
find-sweep_example = find-sweep alice 140 (insert_mac_port-IsValid alice 1 100 init-IsValid)

-- She was not heard for more than 30 seconds.
too_late : still_fresh 140 (some (record { mac = alice; iface = 1; visited = 100 })) ≡ none
too_late = refl

handle_packet-Elsewhere_example :
    Elsewhere 1 ask (handle_packet ports 1 ask 100 init_mac_port_table).1
handle_packet-Elsewhere_example = handle_packet-Elsewhere ports 1 ask 100 init_mac_port_table

run-IsValid_example : IsValid (run ports init_mac_port_table (receive 1 ask 100 ∷ sweep 131 ∷ []))
run-IsValid_example =
    run-IsValid ports init_mac_port_table (receive 1 ask 100 ∷ sweep 131 ∷ []) init-IsValid

reply_is_unicast_example :
    (handle_packet ports 2 answer 131 (
      run ports
        (handle_packet ports 1 ask 100 init_mac_port_table).0
        (receive 2 answer 110 ∷ sweep 130 ∷ []))).1
    ≡ sent_on answer (1 ∷ [])
unfolding is_broadcast_mac
reply_is_unicast_example =
    reply_is_unicast ports 1 ask 100 (receive 2 answer 110 ∷ sweep 130 ∷ []) 2 answer 131
      init-IsValid ((λ e. cc), (omega arith, tt)) refl (λ e. cc) refl (omega arith)
