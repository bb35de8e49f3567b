-- ===== src/Switch/Forward/Learning.antt =====
-- What the switch of code-exp9 knows after a history of frames and sweeps.
use njucn_lab.Common.{ℕ, ◌-◌, ◌≤◌, ◌≡◌, ◌≢◌, List, [], ◌∷◌, some, false, arith}
use njucn_lab.Switch.Hash.{mac_eq_iff}
use njucn_lab.Switch.MacTable.{Entry, Table, lookup_port, mac_port_timeout}
use njucn_lab.Switch.MacTable.Map.{
  IsValid, find, insert_mac_port-IsValid, sweep-IsValid, find-insert_mac_port, find-sweep,
  lookup_port-find,
}
use njucn_lab.Switch.Forward.{
  Event, receive, sweep, ether_shost, ether_dhost, handle_packet, step, run, is_broadcast_mac,
}
use njucn_lab.Switch.Forward.Ports.{sent_on, handle_packet_unicast, learned}

-- The table keeps its invariant, whatever frames and sweeps come and in whatever order.
pub step-IsValid : (ifaces : List ℕ) {t : Table} (e : Event) → IsValid t → IsValid (step ifaces t e)
unfolding step handle_packet
step-IsValid ifaces (receive iface packet now) v = insert_mac_port-IsValid _ iface now v
step-IsValid ifaces (sweep now) v = sweep-IsValid now v

-- A valid table stays valid under any history of frames and sweeps, in whatever order.
pub run-IsValid :
    (ifaces : List ℕ) (t : Table) (es : List Event) → IsValid t → IsValid (run ifaces t es)
unfolding run
run-IsValid ifaces t [] v = v
run-IsValid ifaces t (e ∷ es) v = run-IsValid ifaces (step ifaces t e) es (step-IsValid ifaces e v)

-- Events that do not concern an address last seen at time `seen`: frames from other addresses, and
-- sweeps within the timeout.
abbrev pub Quiet : List ℕ → ℕ → List Event → Type 0
Quiet mac seen [] = Unit
Quiet mac seen (receive iface packet now ∷ es) = (ether_shost packet ≢ mac) × Quiet mac seen es
Quiet mac seen (sweep now ∷ es) = (now - seen ≤ mac_port_timeout) × Quiet mac seen es

run-find :
    (ifaces : List ℕ) (t : Table) (mac : List ℕ) (e : Entry) (es : List Event)
    → IsValid t
    → find mac t ≡ some e
    → Quiet mac e.visited es
    → (find mac (run ifaces t es) ≡ some e) × IsValid (run ifaces t es)
unfolding run
run-find ifaces t mac e [] v h q = (h, v)
run-find ifaces t mac e (receive iface packet now ∷ es) v h q =
    run-find ifaces (step ifaces t (receive iface packet now)) mac e es
      (step-IsValid ifaces (receive iface packet now) v)
      (unfold step handle_packet in
        ground (
          arith,
          find-insert_mac_port mac (ether_shost packet) iface now v,
          mac_eq_iff (ether_shost packet) mac,
        ))
      q.1
run-find ifaces t mac e (sweep now ∷ es) v h q =
    run-find ifaces (step ifaces t (sweep now)) mac e es (step-IsValid ifaces (sweep now) v)
      (unfold step in ground (arith, find-sweep mac now v)) q.1

-- A switch that has heard from an address sends what comes for it, from another interface and not
-- by broadcast, to that address's interface alone, as long as no frame of the address came in since
-- and no sweep came more than 30 seconds later.
pub reply_is_unicast :
    (ifaces : List ℕ) {t : Table} (iface : ℕ) (packet : List ℕ) (now : ℕ) (es : List Event)
    (back : ℕ) (reply : List ℕ) (later : ℕ)
    → IsValid t
    → Quiet (ether_shost packet) now es
    → ether_dhost reply ≡ ether_shost packet
    → ether_shost reply ≢ ether_shost packet
    → is_broadcast_mac (ether_dhost reply) ≡ false
    → iface ≢ back
    → (handle_packet ifaces back reply later
        (run ifaces (handle_packet ifaces iface packet now t).0 es)).1
      ≡ sent_on reply (iface ∷ [])
unfolding handle_packet
reply_is_unicast ifaces {t} iface packet now es back reply later v q d s b ne =
    handle_packet_unicast ifaces back reply later _ iface b known ne
  where
    src : List ℕ
    src = ether_shost packet

    first : Table
    first = learned iface packet now t

    kept :
        (find src (run ifaces first es) ≡ some (record { mac = src; iface = iface; visited = now }))
        × IsValid (run ifaces first es)
    kept =
        run-find ifaces first src (record { mac = src; iface = iface; visited = now }) es
          (insert_mac_port-IsValid src iface now v)
          (ground (arith, find-insert_mac_port src src iface now v, mac_eq_iff src src)) q

    known :
        lookup_port (ether_dhost reply) (learned back reply later (run ifaces first es))
        ≡ some iface
    known = ground (
      arith,
      kept.0,
      lookup_port-find (ether_dhost reply) (learned back reply later (run ifaces first es)),
      find-insert_mac_port (ether_dhost reply) (ether_shost reply) back later kept.1,
      mac_eq_iff (ether_shost reply) (ether_dhost reply),
    )
