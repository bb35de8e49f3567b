-- ===== src/Router/Examples.antt =====
-- The router of code-exp5 with two interfaces and three routes.

use njucn_lab.Common.{
  Bool, ltb, ◌&&◌, zero, suc, ◌<◌, get_or, map, ap, sym, append-nil, ℕ, ◌/◌, ◌^◌, ◌≡◌, ◌↔◌, ◌⊎◌,
  refl, List, [], ◌∷◌, ◌++◌, none, some, true, arith, set, replicate,
}
use njucn_lab.Net.Bytes.{be32}
use njucn_lab.Router.Rtable.{Iface, RtEntry, prefix_len, matches, longest_prefix_match}
use njucn_lab.Router.Rtable.Prefix.{matches-net_mask}
use njucn_lab.Router.Rtable.Longest.{IsLongest, Unmatched, longest_prefix_match-IsLongest}
use njucn_lab.Router.State.{Router, ArpEntry, ArpReq}
use njucn_lab.Router.ArpCache.{blank, arpcache_lookup, arpcache_insert, free_index, lookup_entries}
use njucn_lab.Router.ArpCache.Pending.{others, flushed, place, arpcache_insert_lem}
use njucn_lab.Router.ArpCache.Lookup.{known_before_free}
use njucn_lab.Router.ArpCache.{sweep_entries}
use njucn_lab.Router.Icmp.{icmp_send_packet}
use njucn_lab.Router.Sweep.{arpcache_sweep}
use njucn_lab.Router.Sweep.Pass.{after, Answer, AllAnswers}
use njucn_lab.Router.Sweep.Outcome.{
  again, expired, left_over, outcome, RequestsAnswers, arpcache_sweep_lem,
}
use njucn_lab.Router.Ip.{handled, ip_forward_packet}
use njucn_lab.Router.Ip.Header.{HoldsHeader}
use njucn_lab.Router.Ip.Forwarding.{IsForwarded, forward_known}

abbrev eth0 : Iface
eth0 = record {
  index = 1;
  mac = 2 ∷ 0 ∷ 0 ∷ 0 ∷ 0 ∷ 1 ∷ [];
  ip = 0x0a000001;
  mask = 0xffffff00;
  name = b'a' ∷ [];
}

abbrev eth1 : Iface
eth1 = record {
  index = 2;
  mac = 2 ∷ 0 ∷ 0 ∷ 0 ∷ 0 ∷ 2 ∷ [];
  ip = 0x0a000101;
  mask = 0xffffff00;
  name = b'b' ∷ [];
}

abbrev route : ℕ → ℕ → ℕ → Iface → RtEntry
route dest mask gw iface = record {
  dest = dest;
  mask = mask;
  gw = gw;
  flags = 0;
  if_name = iface.name;
  iface = iface;
}

abbrev default_route : RtEntry
default_route = route 0 0 0x0a000102 eth1

abbrev near : RtEntry
near = route 0x0a000000 0xffffff00 0 eth0

abbrev table : List RtEntry
table = default_route ∷ near ∷ route 0x0a000000 0xffff0000 0 eth1 ∷ []

abbrev host : List ℕ
host = 2 ∷ 0 ∷ 0 ∷ 0 ∷ 0 ∷ 9 ∷ []

abbrev host_entry : ArpEntry
host_entry = record { ip4 = 0x0a000009; mac = host; added = 5; valid = true }

abbrev request : ArpReq
request = record {
  iface = eth0;
  ip4 = 0x0a000007;
  sent = 9;
  retries = 1;
  cached_packets = replicate 14 0 ∷ [];
}

abbrev router : Router
router = record {
  rtable = table;
  entries = host_entry ∷ replicate 31 blank;
  req_list = request ∷ [];
  now = 10;
  rand = λ i. i;
  draws = 0;
  sent = [];
}

-- Ethernet header, then an IP header with the given time to live, to 10.0.0.9.
abbrev packet : ℕ → List ℕ
packet ttl =
    replicate 14 0
    ++ ((0x45 ∷ 0 ∷ 0 ∷ 20 ∷ 0 ∷ 0 ∷ 0 ∷ 0 ∷ ttl ∷ 17 ∷ 0 ∷ 0 ∷ [])
        ++ (be32 0x0a000102 ++ be32 0x0a000009))

lookup_near : longest_prefix_match 0x0a000009 table ≡ some near
unfolding longest_prefix_match matches prefix_len
lookup_near = refl

longest_prefix_match-IsLongest_example :
    ((longest_prefix_match 0x0a000009 table ≡ none) × Unmatched 0x0a000009 table)
    ⊎ ((e : RtEntry) × (longest_prefix_match 0x0a000009 table ≡ some e)
        × IsLongest 0x0a000009 table e)
longest_prefix_match-IsLongest_example = longest_prefix_match-IsLongest 0x0a000009 table

matches-net_mask_example :
    (prefix_len near.mask ≡ 24)
    × ((matches 0x0a000009 near ≡ true) ↔ (0x0a000009 / 2 ^ 8 ≡ near.dest / 2 ^ 8))
matches-net_mask_example =
    matches-net_mask 24 8 0x0a000009 near refl refl (omega arith) (omega arith)

arpcache_insert_lem_example :
    let r' = arpcache_insert 0x0a000007 host router in
    (r'.entries
      ≡ set router.entries
          (place router)
          (record { ip4 = 0x0a000007; mac = host; added = 10; valid = true }))
    × (r'.req_list ≡ others 0x0a000007 router.req_list)
    × (r'.sent ≡ [] ++ flushed 0x0a000007 host router.req_list)
    × (r'.rtable ≡ table)
arpcache_insert_lem_example = arpcache_insert_lem 0x0a000007 host router

-- The first entry hides the new one.
still_known : known_before_free 0x0a000009 router ≡ some host
unfolding free_index lookup_entries
still_known = refl

abbrev all_below : ℕ → List ℕ → Bool
all_below n [] = true
all_below n (x ∷ xs) = ltb x n && all_below n xs

below : (n : ℕ) (xs : List ℕ) → 0 < n → all_below n xs ≡ true → (i : ℕ) → get_or xs i 0 < n
below n [] h a i = h
below n (x ∷ xs) h a zero = ground (arith, a)
below n (x ∷ xs) h a (suc i) = below n xs h (ground (arith, a)) i

packet_holds : HoldsHeader (packet 64)
packet_holds = record {
  ip_hdr = omega arith;
  long = omega arith;
  all_bytes = below 256 (packet 64) (omega arith) refl;
}

forward_known_example :
    (frame : List ℕ) × (ip_forward_packet 0x0a000009 (packet 64) router
      ≡ handled (record router { sent = [] ++ (record { iface = eth0; frame = frame } ∷ []) }))
    × IsForwarded (packet 64) eth0.mac host frame
unfolding arpcache_lookup
forward_known_example =
    forward_known 0x0a000009 (packet 64) router near host packet_holds (omega arith) refl refl
      lookup_near refl

-- A router with no route, so that nobody can be told that a host is unreachable.
abbrev lonely : Router
lonely = record router { rtable = []; req_list = record request { retries = 5 } ∷ request ∷ [] }

lonely-Answer : (p : List ℕ) → Answer (sweep_entries lonely) p
unfolding sweep_entries icmp_send_packet longest_prefix_match
lonely-Answer p = record {
  draws = λ d. d;
  frames = λ d. [];
  goes = λ l d s. ap (after (sweep_entries lonely) l d) (sym (append-nil s));
}

lonely_answers : RequestsAnswers (sweep_entries lonely) lonely.req_list
unfolding RequestsAnswers AllAnswers
lonely_answers = ((lonely-Answer (replicate 14 0), tt), ((lonely-Answer (replicate 14 0), tt), tt))

arpcache_sweep_lem_example :
    arpcache_sweep 5 lonely
    ≡ some (record lonely {
      entries = map (expired 10) lonely.entries;
      req_list = left_over 10 lonely.req_list;
      draws = (outcome (sweep_entries lonely) lonely.req_list lonely_answers 0).0;
      sent = [] ++ (outcome (sweep_entries lonely) lonely.req_list lonely_answers 0).1;
    })
arpcache_sweep_lem_example = arpcache_sweep_lem lonely 5 lonely_answers (omega arith)

one_left : left_over 10 lonely.req_list ≡ again 10 request ∷ []
unfolding left_over
one_left = refl
