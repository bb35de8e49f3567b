-- ===== src/Router/Sweep/Outcome.antt =====
-- What a pass of the sweep of code-exp5/arpcache.c leaves and what it sends.
use njucn_lab.Common.{
  ◌-◌, ℕ, zero, suc, ◌+◌, ◌<◌, ◌≡◌, refl, inl, inr, sym, ap, ap₂, ◌∙◌, List, [], ◌∷◌, ◌++◌,
  append-nil, append_assoc, map, none, some, true, false, Bool-cases, length, length-append,
  get_elem?, ltb, ◌==◌, ◌&&◌, arith, replicate, if◌then◌else◌,
}
use njucn_lab.Net.Bytes.{be32}
use njucn_lab.Router.State.{Router, ArpEntry, ArpReq, Sent, iface_send_packet}
use njucn_lab.Router.ArpCache.{sweep_entries, age_entries}
use njucn_lab.Router.ArpCache.Request.{arp_frame, arp_send_request}
use njucn_lab.Router.Sweep.{is_due, retry, drop_req, sweep_reqs, arpcache_sweep}
use njucn_lab.Router.Sweep.Pass.{
  after, AllAnswers, answered, get-middle, set-middle, remove-middle, answer_packets-lem,
}

-- Entries older than 15 seconds lose their validity.
abbrev pub expired : ℕ → ArpEntry → ArpEntry
expired now e = if e.valid && ltb (e.added + 15) now then record e { valid = false } else e

-- A request that was sent less than five times goes out again.
abbrev pub again : ℕ → ArpReq → ArpReq
again now q = record q { sent = now; retries = q.retries + 1 }

abbrev pub request_frame : ArpReq → Sent
request_frame q = record {
  iface = q.iface;
  frame = arp_frame (replicate 6 0xff) q.iface 1 (replicate 6 0) (be32 q.ip4);
}

-- The requests that are left: one of this second stays, an older one is sent again, or given up after
-- five times.
unfoldable pub left_over : ℕ → List ArpReq → List ArpReq
left_over now [] = []
left_over now (q ∷ qs) =
    let rest = left_over now qs in
    if ltb q.sent now then if ltb q.retries 5 then again now q ∷ rest else rest else q ∷ rest

unfoldable pub RequestsAnswers : Router → List ArpReq → Type 0
RequestsAnswers r [] = Unit {0}
RequestsAnswers r (q ∷ qs) = AllAnswers r q.cached_packets × RequestsAnswers r qs

-- How many results of rand() are taken, and what is sent: an ARP request for each request that is sent
-- again, and the answers for the packets of those that are given up.
unfoldable pub outcome : (r : Router) (qs : List ArpReq) → RequestsAnswers r qs → ℕ → ℕ × List Sent
unfolding RequestsAnswers
outcome r [] a d = (d, [])
outcome r (q ∷ qs) (a, bs) d =
    let given_up = answered r q.cached_packets a d in
    let kept = outcome r qs bs d in
    let behind = outcome r qs bs given_up.0 in
    if ltb q.sent r.now
    then if ltb q.retries 5
      then (kept.0, request_frame q ∷ kept.1)
      else (behind.0, given_up.1 ++ behind.1)
    else kept

-- The requests and their packets.
abbrev pub weight : List ArpReq → ℕ
weight [] = 0
weight (q ∷ qs) = 1 + length q.cached_packets + weight qs

get-end : (xs : List ArpReq) → get_elem? (xs ++ []) (length xs) ≡ none
get-end [] = refl
get-end (x ∷ xs) = get-end xs

is_due-older : (now : ℕ) (q : ArpReq) → is_due now q ≡ ltb q.sent now
is_due-older now q = ground arith

-- A request that is sent again.
retry-lem :
    (r : Router) (xs ys : List ArpReq) (q : ArpReq) (d : ℕ) (s : List Sent)
    → retry (length xs) q (after r (xs ++ (q ∷ ys)) d s)
      ≡ after r ((xs ++ (again r.now q ∷ [])) ++ ys) d (s ++ (request_frame q ∷ []))
unfolding retry arp_send_request iface_send_packet
retry-lem r xs ys q d s =
    ap (λ l. after r l d (s ++ (request_frame q ∷ [])))
      (set-middle xs ys q (again r.now q) ∙ sym (append_assoc xs (again r.now q ∷ []) ys))

-- A request that is given up.
drop_req-lem :
    (r : Router) (fuel : ℕ) (xs ys : List ArpReq) (q : ArpReq) (a : AllAnswers r q.cached_packets)
    (d : ℕ) (s : List Sent)
    → length q.cached_packets < fuel
    → drop_req fuel (length xs) q (after r (xs ++ (q ∷ ys)) d s)
      ≡ some (
          after r
            (xs ++ ys)
            (answered r q.cached_packets a d).0
            (s ++ (answered r q.cached_packets a d).1))
unfolding drop_req
drop_req-lem r fuel xs ys q a d s l =
    let (n, e) = answer_packets-lem r xs ys q q q.cached_packets a fuel d s l in
    let (d', out) = answered r q.cached_packets a d in
    rw (drop_req, e) (ap (λ t. some (after r t d' (s ++ out))) (remove-middle xs ys n))

snoc-length : (xs : List ArpReq) (q : ArpReq) → length xs + 1 ≡ length (xs ++ (q ∷ []))
snoc-length xs q = omega (arith, length-append xs (q ∷ []))

-- The last request is followed by none.
is_last :
    (xs ys : List ArpReq) (q : ArpReq) → (length xs + 1 == length (xs ++ (q ∷ ys))) ≡ true → ys ≡ []
is_last xs [] q h = refl
is_last xs (y ∷ ys) q h = absurd (ground (arith, h, length-append xs (q ∷ y ∷ ys)))

sweep_end :
    (fuel i : ℕ) (r : Router)
    → 0 < fuel
    → get_elem? r.req_list i ≡ none
    → sweep_reqs fuel i r ≡ some r
unfolding sweep_reqs
sweep_end zero i r h e = absurd (omega (arith, h))
sweep_end (suc fuel) i r h e = rw (sweep_reqs, e) refl

-- Where the walk ends behind the last request, it would have ended anyway.
go_on :
    (r : Router) (ys xs : List ArpReq) (q : ArpReq) (fuel d : ℕ) (s : List Sent) (t : Router)
    → 0 < fuel
    → sweep_reqs fuel (length xs) (after r (xs ++ ys) d s) ≡ some t
    → (if length xs + 1 == length (xs ++ (q ∷ ys))
        then some (after r (xs ++ ys) d s)
        else sweep_reqs fuel (length xs) (after r (xs ++ ys) d s))
      ≡ some t
go_on r ys xs q fuel d s t h e = elim (Bool-cases (length xs + 1 == length (xs ++ (q ∷ ys)))) [
  | inr w ↦ rw w e
  | inl w ↦
      let none_left : get_elem? (xs ++ ys) (length xs) ≡ none =
        ap (λ y. get_elem? (xs ++ y) (length xs)) (is_last xs ys q w) ∙ get-end xs in
      rw w (sym (sweep_end fuel (length xs) (after r (xs ++ ys) d s) h none_left) ∙ e)
]

older : (now time : ℕ) → ltb 15 (now - time) ≡ ltb (time + 15) now
older now time = ground arith

-- `xs` are the requests that the walk has left behind.
sweep_reqs-lem :
    (r : Router) (ys xs : List ArpReq) (a : RequestsAnswers r ys) (fuel d : ℕ) (s : List Sent)
    → weight ys < fuel
    → sweep_reqs fuel (length xs) (after r (xs ++ ys) d s)
      ≡ some (after r (xs ++ left_over r.now ys) (outcome r ys a d).0 (s ++ (outcome r ys a d).1))
unfolding sweep_reqs left_over RequestsAnswers outcome
sweep_reqs-lem r ys xs a zero d s l = absurd (omega (arith, l))
sweep_reqs-lem r [] xs a (suc fuel) d s l =
    rw (sweep_reqs, get-end xs) (ap (λ o. some (after r (xs ++ []) d o)) (sym (append-nil s)))
sweep_reqs-lem r (q ∷ ys) xs a (suc fuel) d s l =
    let due = is_due-older r.now q in
    let got = get-middle xs ys q in
    let p = again r.now q in
    let f = request_frame q in
    let o = outcome r ys a.1 d in
    let given = answered r q.cached_packets a.0 d in
    let rest = left_over r.now ys in
    elim (Bool-cases (ltb q.sent r.now)) [
      | inr t ↦
          rw (sweep_reqs, got, due, t)
            (ap₂ (λ k l. sweep_reqs fuel k (after r l d s)) (snoc-length xs q)
                (sym (append_assoc xs (q ∷ []) ys))
              ∙ sweep_reqs-lem r ys (xs ++ (q ∷ [])) a.1 fuel d s (omega (arith, l))
              ∙ ap (λ t. some (after r t o.0 (s ++ o.1))) (append_assoc xs (q ∷ []) rest))
      | inl t ↦ elim (Bool-cases (ltb q.retries 5)) [
        | inl m ↦
            rw (sweep_reqs, got, due, t, m)
              (ap (sweep_reqs fuel (length xs + 1)) (retry-lem r xs ys q d s)
                ∙ ap (λ k. sweep_reqs fuel k (after r ((xs ++ (p ∷ [])) ++ ys) d (s ++ (f ∷ []))))
                    (snoc-length xs p)
                ∙ sweep_reqs-lem r ys (xs ++ (p ∷ [])) a.1 fuel d (s ++ (f ∷ [])) (omega (arith, l))
                ∙ ap₂ (λ t u. some (after r t o.0 u)) (append_assoc xs (p ∷ []) rest)
                    (append_assoc s (f ∷ []) o.1))
        | inr m ↦
            rw (sweep_reqs, got, due, t, m, drop_req-lem r fuel xs ys q a.0 d s (omega (arith, l)))
              (go_on r ys xs q fuel given.0 (s ++ given.1) _ (omega (arith, l)) (
                sweep_reqs-lem r ys xs a.1 fuel given.0 (s ++ given.1) (omega (arith, l))
                ∙ ap (λ u. some (after r (xs ++ rest) (outcome r ys a.1 given.0).0 u))
                    (append_assoc s given.1 (outcome r ys a.1 given.0).1)))
      ]
    ]

expired-map : (now : ℕ) (es : List ArpEntry) → age_entries now es ≡ map (expired now) es
unfolding age_entries
expired-map now [] = refl
expired-map now (e ∷ es) =
    ap₂ (λ x xs. x ∷ xs)
      (ap (λ b. if e.valid && b then record e { valid = false } else e) (older now e.added))
      (expired-map now es)

-- A pass of the sweep, when the ICMP errors for the packets of given-up requests go out at once or not at
-- all: it ends, with fuel for each request and each packet. Entries of more than 15 seconds are invalid;
-- each request of this second is kept, and an older one is sent again if it was sent less than five times,
-- and given up otherwise. What is sent is an ARP request for each one that is sent again, and the answers
-- for the packets of each one that is given up, in their order; nothing else is changed.
pub arpcache_sweep_lem :
    (r : Router) (fuel : ℕ) (a : RequestsAnswers (sweep_entries r) r.req_list)
    → weight r.req_list < fuel
    → arpcache_sweep fuel r
      ≡ some (record r {
        entries = map (expired r.now) r.entries;
        req_list = left_over r.now r.req_list;
        draws = (outcome (sweep_entries r) r.req_list a r.draws).0;
        sent = r.sent ++ (outcome (sweep_entries r) r.req_list a r.draws).1;
      })
unfolding arpcache_sweep sweep_entries
arpcache_sweep_lem r fuel a l =
    let (d, out) = outcome (sweep_entries r) r.req_list a r.draws in
    sweep_reqs-lem (sweep_entries r) r.req_list [] a fuel r.draws r.sent l
    ∙ ap
        (λ es. some (record r {
          entries = es;
          req_list = left_over r.now r.req_list;
          draws = d;
          sent = r.sent ++ out;
        }))
        (expired-map r.now r.entries)
