-- ===== src/Router/ArpCache/Pending.antt =====
-- The packets that wait in the cache of code-exp5/arpcache.c: none is lost on the way in, and an
-- address that becomes known sends out those that wait for it.
use njucn_lab.Common.{
  ℕ, ◌+◌, ◌%◌, ◌≡◌, ap, sym, ◌∙◌, inl, inr, List, [], ◌∷◌, ◌++◌, append-nil, append_assoc, Option,
  none, some, Bool-cases, length, blit, set, ◌==◌, true, false, Bool, ◌||◌, if◌then◌else◌,
}
use njucn_lab.Router.Rtable.{Iface}
use njucn_lab.Router.State.{Router, ArpReq, Sent, iface_send_packet}
use njucn_lab.Router.ArpCache.{
  max_arp_size, free_index, flush_packets, flush_reqs, fill_entry, arpcache_insert, waits_for,
}

-- The frames that a request's packets become.
abbrev pub framed : Iface → List ℕ → List (List ℕ) → List Sent
framed iface mac [] = []
framed iface mac (p ∷ ps) = record { iface = iface; frame = blit p 0 mac } ∷ framed iface mac ps

-- The frames for the requests of an address, and the requests of other addresses.
abbrev pub flushed : ℕ → List ℕ → List ArpReq → List Sent
flushed ip4 mac [] = []
flushed ip4 mac (req ∷ reqs) =
    if req.ip4 == ip4
    then framed req.iface mac req.cached_packets ++ flushed ip4 mac reqs
    else flushed ip4 mac reqs

abbrev pub others : ℕ → List ArpReq → List ArpReq
others ip4 [] = []
others ip4 (req ∷ reqs) = if req.ip4 == ip4 then others ip4 reqs else req ∷ others ip4 reqs

abbrev emitted : List Sent → Router → Router
emitted out r = record r { sent = r.sent ++ out }

flush_packets_lem :
    (iface : Iface) (mac : List ℕ) (ps : List (List ℕ)) (r : Router)
    → flush_packets iface mac ps r ≡ emitted (framed iface mac ps) r
unfolding flush_packets iface_send_packet
flush_packets_lem iface mac [] r = ap (λ s. record r { sent = s }) (sym (append-nil r.sent))
flush_packets_lem iface mac (p ∷ ps) r =
    flush_packets_lem iface mac ps (iface_send_packet iface (blit p 0 mac) r)
    ∙ ap (λ s. record r { sent = s }) (append_assoc r.sent _ (framed iface mac ps))

flush_reqs_lem :
    (ip4 : ℕ) (mac : List ℕ) (reqs : List ArpReq) (r : Router)
    → flush_reqs ip4 mac reqs r ≡ (others ip4 reqs, emitted (flushed ip4 mac reqs) r)
unfolding flush_reqs
flush_reqs_lem ip4 mac [] r = ap (λ s. ([], record r { sent = s })) (sym (append-nil r.sent))
flush_reqs_lem ip4 mac (req ∷ reqs) r = elim (Bool-cases (req.ip4 == ip4)) [
  | inl e ↦
      rw
        (
          e,
          flush_packets_lem,
          flush_reqs_lem ip4 mac reqs (emitted (framed req.iface mac req.cached_packets) r),
        )
        (ap (λ s. (others ip4 reqs, record r { sent = s }))
          (append_assoc r.sent (framed req.iface mac req.cached_packets) (flushed ip4 mac reqs)))
  | inr e ↦ rw (e, flush_reqs_lem ip4 mac reqs r)
]

-- Where a new mapping is put.
abbrev pub place : Router → ℕ
place r =
    if free_index r.entries == max_arp_size
    then r.rand r.draws % max_arp_size
    else free_index r.entries

arpcache_insert_state :
    (ip4 : ℕ) (mac : List ℕ) (r : Router)
    → arpcache_insert ip4 mac r
      ≡ record (emitted (flushed ip4 mac r.req_list) (fill_entry ip4 mac r)) {
        req_list = others ip4 r.req_list;
      }
unfolding arpcache_insert
arpcache_insert_state ip4 mac r =
    ap (λ (p : List ArpReq × Router). record p.1 { req_list = p.0 })
      (flush_reqs_lem ip4 mac r.req_list (fill_entry ip4 mac r))

-- Learning an address fills one entry and sends out exactly the packets that waited for the address,
-- in their order, each to the new hardware address; the requests of other addresses stay.
pub arpcache_insert_lem :
    (ip4 : ℕ) (mac : List ℕ) (r : Router)
    → let r' = arpcache_insert ip4 mac r in
      (r'.entries
        ≡ set r.entries (place r) (record { ip4 = ip4; mac = mac; added = r.now; valid = true }))
      × (r'.req_list ≡ others ip4 r.req_list)
      × (r'.sent ≡ r.sent ++ flushed ip4 mac r.req_list)
      × (r'.rtable ≡ r.rtable)
unfolding fill_entry
arpcache_insert_lem ip4 mac r =
    let e = arpcache_insert_state ip4 mac r in
    (
      ap (λ (q : Router). q.entries) e,
      ap (λ (q : Router). q.req_list) e,
      ap (λ (q : Router). q.sent) e,
      ap (λ (q : Router). q.rtable) e,
    )

-- How many packets wait.
pub waiting : List ArpReq → ℕ
waiting [] = 0
waiting (req ∷ reqs) = length req.cached_packets + waiting reqs

-- Is there a request for the address by the interface?
abbrev pub has_request : Iface → ℕ → List ArpReq → Bool
has_request iface ip4 [] = false
has_request iface ip4 (req ∷ reqs) = waits_for iface ip4 req || has_request iface ip4 reqs

-- What joining a packet to a request does to the list.
abbrev Joined : Bool → List ArpReq → Option (List ArpReq) → Type 0
Joined found reqs none = found ≡ false
Joined found reqs (some reqs') = (found ≡ true) × (waiting reqs' ≡ waiting reqs + 1)

-- The packets that wait with the first request for the address by the interface.
abbrev pub pending : Iface → ℕ → List ArpReq → List (List ℕ)
pending iface ip4 [] = []
pending iface ip4 (req ∷ reqs) =
    if waits_for iface ip4 req then req.cached_packets else pending iface ip4 reqs

abbrev Queued : Iface → ℕ → List ℕ → List ArpReq → Option (List ArpReq) → Type 0
Queued iface ip4 packet reqs none = Unit {0}
Queued iface ip4 packet reqs (some reqs') =
    pending iface ip4 reqs' ≡ pending iface ip4 reqs ++ (packet ∷ [])
