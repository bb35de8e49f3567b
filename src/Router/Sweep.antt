-- ===== src/Router/Sweep.antt =====
-- arpcache_sweep and arpcache_destroy of code-exp5/arpcache.c. The sweep answers packets with ICMP
-- errors, which may themselves come to wait in the list that it walks along; a request is named by its
-- place there. Other threads have no turn in between, although the lock is given up for the answers.
pub mod Pass
pub mod Outcome
use njucn_lab.Common.{
  ℕ, zero, suc, ◌+◌, ◌-◌, List, [], ◌∷◌, Option, none, some, Bool, ◌>>=◌, length, get_elem?, set,
  ltb, leb, ◌==◌, if◌then◌else◌,
}
use njucn_lab.Router.State.{Router, ArpReq}
use njucn_lab.Router.ArpCache.{sweep_entries}
use njucn_lab.Router.ArpCache.Request.{arp_send_request}
use njucn_lab.Router.Icmp.{icmp_send_packet}

abbrev pub arp_request_max_retries : ℕ
arp_request_max_retries = 5

abbrev pub remove_at : ℕ → List ArpReq → List ArpReq
remove_at i [] = []
remove_at zero (q ∷ qs) = qs
remove_at (suc i) (q ∷ qs) = q ∷ remove_at i qs

abbrev pub packets_at : ℕ → List ArpReq → List (List ℕ)
packets_at i qs = elim (get_elem? qs i) [ none ↦ [] | some q ↦ q.cached_packets ]

abbrev pub with_packets : ℕ → ArpReq → List (List ℕ) → Router → Router
with_packets i q ps r = record r { req_list = set r.req_list i (record q { cached_packets = ps }) }

-- Host unreachable (ICMP type 3, code 1) for the packets of a request. The loop has taken the next packet
-- before it sends, so that it ends behind the last one even if the answer has come to wait there.
-- `none` is a loop that has not ended within the fuel.
unfoldable pub answer_packets : ℕ → ℕ → ArpReq → List (List ℕ) → Router → Option Router
answer_packets zero i q ps r = none
answer_packets (suc fuel) i q [] r = some r
answer_packets (suc fuel) i q (p ∷ ps) r =
    let r' = icmp_send_packet p 3 1 (with_packets i q ps r) in
    elim ps [ [] ↦ some r' | _ ∷ _ ↦ answer_packets fuel i q (packets_at i r'.req_list) r' ]

-- now - req->sent >= 1
abbrev pub is_due : ℕ → ArpReq → Bool
is_due now q = leb 1 (now - q.sent)

abbrev pub retried : ℕ → ArpReq → ArpReq
retried now q = record q { sent = now; retries = q.retries + 1 }

-- A request that is sent once more.
unfoldable pub retry : ℕ → ArpReq → Router → Router
retry i q r =
    let r' = arp_send_request q.iface q.ip4 r in
    record r' { req_list = set r'.req_list i (retried r.now q) }

-- A request that is given up.
unfoldable pub drop_req : ℕ → ℕ → ArpReq → Router → Option Router
drop_req fuel i q r = do
  r' ← answer_packets fuel i q q.cached_packets r
  some (record r' { req_list = remove_at i r'.req_list })

-- The walk from the place `i` on, which ends behind the request that was the last one when its turn came.
unfoldable pub sweep_reqs : ℕ → ℕ → Router → Option Router
sweep_reqs zero i r = none
sweep_reqs (suc fuel) i r = elim (get_elem? r.req_list i) [
  | none ↦ some r
  | some q ↦
      let is_last = i + 1 == length r.req_list in
      let kept = sweep_reqs fuel (i + 1) r in
      let again = sweep_reqs fuel (i + 1) (retry i q r) in
      let given_up =
        drop_req fuel i q r >>= (λ r'. if is_last then some r' else sweep_reqs fuel i r') in
      if is_due r.now q
      then if ltb q.retries arp_request_max_retries then again else given_up
      else kept
]

unfoldable pub arpcache_sweep : ℕ → Router → Option Router
arpcache_sweep fuel r = sweep_reqs fuel 0 (sweep_entries r)

-- All requests and their packets are freed.
unfoldable pub destroy_packets : List (List ℕ) → List (List ℕ)
destroy_packets [] = []
destroy_packets (p ∷ ps) = destroy_packets ps

unfoldable pub destroy_reqs : List ArpReq → List ArpReq
destroy_reqs [] = []
destroy_reqs (q ∷ qs) = destroy_reqs qs

unfoldable pub arpcache_destroy : Router → Router
arpcache_destroy r = record r { req_list = destroy_reqs r.req_list }
