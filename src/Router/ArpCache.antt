-- ===== src/Router/ArpCache.antt =====
-- code-exp5/arpcache.c: the table of hardware addresses and the packets that wait for one. Each
-- function runs under the lock of the cache.
pub mod Request
pub mod Lookup
pub mod Pending
use Prim.Native.Nat.{Ordering}
use njucn_lab.Common.{
  ℕ, zero, suc, ◌+◌, ◌-◌, ◌%◌, List, [], ◌∷◌, ◌++◌, Option, none, some, Bool, true, false, ◌&&◌,
  ◌==◌, ltb, if◌then◌else◌, blit, set, replicate, get_or,
}
use njucn_lab.Router.Rtable.{Iface}
use njucn_lab.Router.State.{Router, ArpEntry, ArpReq, iface_send_packet, same_iface}
use Request.{arp_send_request}

abbrev pub max_arp_size : ℕ
max_arp_size = 32

abbrev pub blank : ArpEntry
blank = record { ip4 = 0; mac = replicate 6 0; added = 0; valid = false }

-- bzero of the whole cache, and an empty request list.
pub arpcache_init : Router → Router
arpcache_init r = record r { entries = replicate max_arp_size blank; req_list = [] }

unfoldable pub lookup_entries : ℕ → List ArpEntry → Option (List ℕ)
lookup_entries ip4 [] = none
lookup_entries ip4 (e ∷ es) = if e.valid && e.ip4 == ip4 then some e.mac else lookup_entries ip4 es

unfoldable pub arpcache_lookup : ℕ → Router → Option (List ℕ)
unfolding lookup_entries
arpcache_lookup ip4 r = lookup_entries ip4 r.entries

-- The index of the first entry that is not valid, or the number of entries.
unfoldable pub free_index : List ArpEntry → ℕ
free_index [] = 0
free_index (e ∷ es) = let rest = free_index es in if e.valid then suc rest else 0

-- The waiting packets of one request go out, each with the destination address filled in.
flush_packets : Iface → List ℕ → List (List ℕ) → Router → Router
flush_packets iface mac [] r = r
flush_packets iface mac (packet ∷ packets) r =
    flush_packets iface mac packets (iface_send_packet iface (blit packet 0 mac) r)

-- The walk over the requests: those for the address are flushed and freed, the others stay.
flush_reqs : ℕ → List ℕ → List ArpReq → Router → List ArpReq × Router
flush_reqs ip4 mac [] r = ([], r)
flush_reqs ip4 mac (req ∷ reqs) r =
    let hit = flush_reqs ip4 mac reqs (flush_packets req.iface mac req.cached_packets r) in
    let (kept, r') = flush_reqs ip4 mac reqs r in if req.ip4 == ip4 then hit else (req ∷ kept, r')

-- A free entry is taken, or a random one where there is none.
fill_entry : ℕ → List ℕ → Router → Router
fill_entry ip4 mac r =
    let index = free_index r.entries in
    let full = index == max_arp_size in
    record r {
      entries =
          set r.entries (if full then r.rand r.draws % max_arp_size else index)
            (record { ip4 = ip4; mac = mac; added = r.now; valid = true });
      draws = if full then r.draws + 1 else r.draws;
    }

-- The mapping is entered, and then the requests for the address are flushed.
pub arpcache_insert : ℕ → List ℕ → Router → Router
unfolding fill_entry
arpcache_insert ip4 mac r =
    let (kept, r') = flush_reqs ip4 mac r.req_list (fill_entry ip4 mac r) in
    record r' { req_list = kept }

abbrev pub waits_for : Iface → ℕ → ArpReq → Bool
waits_for iface ip4 req = req.ip4 == ip4 && same_iface req.iface iface

abbrev behind : ArpReq → Option (List ArpReq) → Option (List ArpReq)
behind req none = none
behind req (some reqs) = some (req ∷ reqs)

-- The first request for the address by the interface takes the packet: `none` where there is none.
unfoldable pub append_pending : Iface → ℕ → List ℕ → List ArpReq → Option (List ArpReq)
append_pending iface ip4 packet [] = none
append_pending iface ip4 packet (req ∷ reqs) =
    let rest = behind req (append_pending iface ip4 packet reqs) in
    if waits_for iface ip4 req
    then some (record req { cached_packets = req.cached_packets ++ (packet ∷ []) } ∷ reqs)
    else rest

new_request : Iface → ℕ → List ℕ → ℕ → ArpReq
new_request iface ip4 packet now = record {
  iface = iface;
  ip4 = ip4;
  sent = now;
  retries = 1;
  cached_packets = packet ∷ [];
}

unfoldable pub arpcache_append_packet : Iface → ℕ → List ℕ → Router → Router
unfolding append_pending new_request
arpcache_append_packet iface ip4 packet r = elim (append_pending iface ip4 packet r.req_list) [
  | some reqs ↦ record r { req_list = reqs }
  | none ↦
      arp_send_request iface ip4
        (record r { req_list = r.req_list ++ (new_request iface ip4 packet r.now ∷ []) })
]

abbrev pub arp_entry_timeout : ℕ
arp_entry_timeout = 15

-- The first loop of the sweeper: entries older than the timeout lose their validity.
unfoldable pub age_entries : ℕ → List ArpEntry → List ArpEntry
age_entries now [] = []
age_entries now (e ∷ es) =
    (if e.valid && ltb arp_entry_timeout (now - e.added) then record e { valid = false } else e)
    ∷ age_entries now es

unfoldable pub sweep_entries : Router → Router
unfolding age_entries
sweep_entries r = record r { entries = age_entries r.now r.entries }
