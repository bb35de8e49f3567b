-- ===== src/Router/Sweep/Pass.antt =====
-- A pass of the sweep of code-exp5/arpcache.c, when its ICMP errors need not wait.
use njucn_lab.Common.{
  ℕ, zero, suc, ◌<◌, ◌≡◌, refl, ap, sym, ◌∙◌, List, [], ◌∷◌, ◌++◌, append-nil, append_assoc, none,
  some, length, get_elem?, set, arith,
}
use njucn_lab.Router.State.{Router, ArpReq, Sent}
use njucn_lab.Router.Icmp.{icmp_send_packet}
use njucn_lab.Router.Sweep.{remove_at, packets_at, answer_packets}

-- What sending may change: the requests, the results of rand() that were taken, and what was sent.
abbrev pub after : Router → List ArpReq → ℕ → List Sent → Router
after r l d s = record r { req_list = l; draws = d; sent = s }

-- The error for a packet goes out at once, or not at all, whatever the router has sent before. Its frames
-- depend on how many results of rand() were taken.
pub record Answer (r : Router) (p : List ℕ) : Type 0 where
  pub draws : ℕ → ℕ
  pub frames : ℕ → List Sent
  pub goes :
      (l : List ArpReq) (d : ℕ) (s : List Sent)
      → icmp_send_packet p 3 1 (after r l d s) ≡ after r l (draws d) (s ++ frames d)

unfoldable pub AllAnswers : Router → List (List ℕ) → Type 0
AllAnswers r [] = Unit {0}
AllAnswers r (p ∷ ps) = Answer r p × AllAnswers r ps

-- How many results of rand() are taken after the answers for some packets, and their frames.
unfoldable pub answered : (r : Router) (ps : List (List ℕ)) → AllAnswers r ps → ℕ → ℕ × List Sent
unfolding AllAnswers
answered r [] a d = (d, [])
answered r (p ∷ ps) (a, bs) d =
    let (d', out) = answered r ps bs (a.draws d) in (d', a.frames d ++ out)

pub get-middle :
    (xs ys : List ArpReq) (q : ArpReq) → get_elem? (xs ++ (q ∷ ys)) (length xs) ≡ some q
get-middle [] ys q = refl
get-middle (x ∷ xs) ys q = get-middle xs ys q

pub set-middle :
    (xs ys : List ArpReq) (q p : ArpReq) → set (xs ++ (q ∷ ys)) (length xs) p ≡ xs ++ (p ∷ ys)
set-middle [] ys q p = refl
set-middle (x ∷ xs) ys q p = ap (λ t. x ∷ t) (set-middle xs ys q p)

pub remove-middle :
    (xs ys : List ArpReq) (q : ArpReq) → remove_at (length xs) (xs ++ (q ∷ ys)) ≡ xs ++ ys
remove-middle [] ys q = refl
remove-middle (x ∷ xs) ys q = ap (λ t. x ∷ t) (remove-middle xs ys q)

-- After the answers the request is in its place.
pub answer_packets-lem :
    (r : Router) (xs ys : List ArpReq) (q m : ArpReq) (ps : List (List ℕ)) (a : AllAnswers r ps)
    (fuel d : ℕ) (s : List Sent)
    → length ps < fuel
    → (n : ArpReq) × (answer_packets fuel (length xs) q ps (after r (xs ++ (m ∷ ys)) d s)
        ≡ some (after r (xs ++ (n ∷ ys)) (answered r ps a d).0 (s ++ (answered r ps a d).1)))
unfolding answer_packets AllAnswers answered
answer_packets-lem r xs ys q m ps a zero d s l = absurd (omega (arith, l))
answer_packets-lem r xs ys q m [] a (suc fuel) d s l =
    (m, ap (λ o. some (after r (xs ++ (m ∷ ys)) d o)) (sym (append-nil s)))
answer_packets-lem r xs ys q m (p ∷ []) a (suc fuel) d s l =
    let n = record q { cached_packets = [] } in
    (
      n,
      ap some (
          ap (λ t. icmp_send_packet p 3 1 (after r t d s)) (set-middle xs ys m n)
          ∙ a.0.goes (xs ++ (n ∷ ys)) d s
          ∙ ap (λ o. after r (xs ++ (n ∷ ys)) (a.0.draws d) (s ++ o))
              (sym (append-nil (a.0.frames d)))),
    )
answer_packets-lem r xs ys q m (p ∷ p' ∷ ps) a (suc fuel) d s l =
    let n = record q { cached_packets = p' ∷ ps } in
    let e =
      ap (λ t. icmp_send_packet p 3 1 (after r t d s)) (set-middle xs ys m n)
      ∙ a.0.goes (xs ++ (n ∷ ys)) d s in
    let next : packets_at (length xs) (xs ++ (n ∷ ys)) ≡ p' ∷ ps =
      ap (λ o. elim o [ none ↦ [] | some x ↦ x.cached_packets ]) (get-middle xs ys n) in
    let (k, run) =
      answer_packets-lem r xs ys q n (p' ∷ ps) a.1 fuel (a.0.draws d) (s ++ a.0.frames d)
        (omega (arith, l)) in
    (
      k,
      ap (λ (t : Router). answer_packets fuel (length xs) q (packets_at (length xs) t.req_list) t) e
          ∙ ap
              (λ t.
                answer_packets fuel (length xs) q t
                  (after r (xs ++ (n ∷ ys)) (a.0.draws d) (s ++ a.0.frames d)))
              next
          ∙ run
          ∙ ap (λ o. some (after r (xs ++ (k ∷ ys)) (answered r (p' ∷ ps) a.1 (a.0.draws d)).0 o))
              (append_assoc s (a.0.frames d) (answered r (p' ∷ ps) a.1 (a.0.draws d)).1),
    )
