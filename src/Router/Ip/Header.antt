-- ===== src/Router/Ip/Header.antt =====
-- The checksum that code-exp5/ip.c puts into the header of a packet.
use njucn_lab.Common.{
  ℕ, zero, suc, ◌+◌, ◌-◌, ◌*◌, ◌/◌, ◌%◌, ◌≤◌, ◌<◌, ◌≡◌, ◌⊎◌, inl, inr, refl, ap, ◌∙◌, List, [], ◌∷◌,
  ◌++◌, set, take, drop, slice, blit, length, length-take, length-drop, get_or, get_or-take,
  get_or-drop, get_or-blit_before, get_or-blit_behind, length-blit, arith,
}
use njucn_lab.Net.Bytes.{le16}
use njucn_lab.Net.Checksum.{checksum}
use njucn_lab.Net.Checksum.Verify.{total, checksum_verifies, checksum-lt}
use njucn_lab.Router.Icmp.{ip_hdr_size}
use njucn_lab.Router.Ip.{refresh_checksum}

drop-set_behind :
    (xs : List ℕ) (n i v : ℕ) → n ≤ i → drop n (set xs i v) ≡ set (drop n xs) (i - n) v
drop-set_behind xs zero i v h = ap (λ k. set xs k v) (omega arith)
drop-set_behind [] (suc n) i v h = refl
drop-set_behind (x ∷ xs) (suc n) zero v h = absurd (omega (arith, h))
drop-set_behind (x ∷ xs) (suc n) (suc i) v h =
    drop-set_behind xs n i v (omega (arith, h))
    ∙ ap (λ k. set (drop n xs) k v) (let q : i - n ≡ suc i - suc n = omega arith in q)

-- The first `n` bytes, when two of them were put in at `k`.
take-two :
    (n k : ℕ) (xs : List ℕ) (a b : ℕ)
    → k + 2 ≤ n
    → n ≤ length xs
    → take n (set (set xs k a) (suc k) b)
      ≡ take k xs ++ (a ∷ b ∷ take (n - (k + 2)) (drop (k + 2) xs))
take-two n k [] a b h l = absurd (omega (arith, h, l))
take-two zero k (x ∷ xs) a b h l = absurd (omega (arith, h))
take-two (suc n) (suc k) (x ∷ xs) a b h l =
    let p : suc k + 2 ≡ suc (k + 2) = omega arith in
    let q : n - (k + 2) ≡ suc n - suc (k + 2) = omega arith in
    rw (p, ← q) (ap (λ t. x ∷ t) (take-two n k xs a b (omega (arith, h)) (omega (arith, l))))
take-two (suc zero) zero (x ∷ xs) a b h l = absurd (omega (arith, h))
take-two (suc (suc n)) zero (x ∷ []) a b h l = absurd (omega (arith, l))
take-two (suc (suc n)) zero (x ∷ y ∷ xs) a b h l =
    ap (λ m. a ∷ b ∷ take m xs) (let q : n ≡ suc (suc n) - (0 + 2) = omega arith in q)

total-le :
    (xs : List ℕ) → ((i : ℕ) → i < length xs → get_or xs i 0 < 256) → total xs ≤ 65535 * length xs
unfolding total
total-le [] h = omega arith
total-le (x ∷ []) h = omega arith
total-le (x ∷ y ∷ xs) h = omega (
  arith,
  h 0 (omega arith),
  h 1 (omega arith),
  total-le xs (λ i l. h (suc (suc i)) (omega (arith, l))),
)

total-first : (xs : List ℕ) → 10 ≤ length xs → get_or xs 0 0 ≤ total (take 10 xs)
unfolding total
total-first [] h = omega arith
total-first (x ∷ []) h = absurd (omega (arith, h))
total-first (x ∷ y ∷ xs) h = omega arith

take-bytes :
    (n : ℕ) (xs : List ℕ)
    → ((i : ℕ) → get_or xs i 0 < 256)
    → (i : ℕ) → i < length (take n xs)
    → get_or (take n xs) i 0 < 256
take-bytes n xs h i l =
    let e = get_or-take n xs i 0 (omega (arith, l, length-take n xs)) in omega (arith, e, h i)

-- A packet of bytes that holds the whole of its IP header.
pub record HoldsHeader (packet : List ℕ) : Type 0 where
  pub ip_hdr : 20 ≤ ip_hdr_size packet
  pub long : 14 + ip_hdr_size packet ≤ length packet
  pub all_bytes : (i : ℕ) → get_or packet i 0 < 256

abbrev stored : List ℕ → List ℕ
stored p = le16 (checksum (slice (blit p 24 (0 ∷ 0 ∷ [])) 14 (ip_hdr_size p)) 0)

pub refresh-cells :
    (p : List ℕ) (i : ℕ) → ((i < 24) ⊎ (26 ≤ i)) → get_or (refresh_checksum p) i 0 ≡ get_or p i 0
unfolding refresh_checksum
refresh-cells p i (inl h) = get_or-blit_before p 24 (stored p) i 0 h
refresh-cells p i (inr h) = get_or-blit_behind p 24 (stored p) i 0 h

pub refresh-length : (p : List ℕ) → length (refresh_checksum p) ≡ length p
unfolding refresh_checksum
refresh-length p = length-blit p 24 (stored p)

-- The header with two bytes in the place of its checksum.
header_with :
    (p : List ℕ) (a b : ℕ)
    → HoldsHeader p
    → slice (blit p 24 (a ∷ b ∷ [])) 14 (ip_hdr_size p)
      ≡ take 10 (drop 14 p) ++ (a ∷ b ∷ take (ip_hdr_size p - 12) (drop 12 (drop 14 p)))
header_with p a b h =
    ap (take (ip_hdr_size p)) (
      drop-set_behind (set p 24 a) 14 25 b (omega arith)
      ∙ ap (λ q. set q 11 b) (drop-set_behind p 14 24 a (omega arith)))
    ∙ take-two (ip_hdr_size p) 10 (drop 14 p) a b (omega (arith, h.ip_hdr))
        (omega (arith, h.long, length-drop 14 p))

-- The header sums up to no error.
pub refresh-verifies :
    (p : List ℕ) → HoldsHeader p → checksum (slice (refresh_checksum p) 14 (ip_hdr_size p)) 0 ≡ 0
unfolding refresh_checksum
refresh-verifies p h =
    let q = drop 14 p in
    let before = take 10 q in
    let behind = take (ip_hdr_size p - 12) (drop 12 q) in
    let lq = length-drop 14 p in
    let lb : length before ≡ 10 = omega (arith, lq, length-take 10 q, h.long, h.ip_hdr) in
    let lc : length behind ≡ ip_hdr_size p - 12 = omega (
      arith,
      lq,
      length-drop 12 q,
      length-take (ip_hdr_size p - 12) (drop 12 q),
      h.long,
      h.ip_hdr,
    ) in
    let bytes : (i : ℕ) → get_or q i 0 < 256 =
      λ i. omega (arith, get_or-drop 14 p i 0, h.all_bytes (14 + i)) in
    let bytes' : (i : ℕ) → get_or (drop 12 q) i 0 < 256 =
      λ i. omega (arith, get_or-drop 12 q i 0, bytes (12 + i)) in
    let first : 0 < total before = omega (
      arith,
      total-first q (omega (arith, lq, h.long, h.ip_hdr)),
      get_or-drop 14 p 0 0,
      h.ip_hdr,
    ) in
    let small = total-le before (take-bytes 10 q bytes) in
    let small' = total-le behind (take-bytes (ip_hdr_size p - 12) (drop 12 q) bytes') in
    let c = checksum (slice (blit p 24 (0 ∷ 0 ∷ [])) 14 (ip_hdr_size p)) 0 in
    let d = checksum (before ++ (0 ∷ 0 ∷ behind)) 0 in
    let e : c ≡ d = ap (λ x. checksum x 0) (header_with p 0 0 h) in
    ap (λ x. checksum x 0) (header_with p (c % 256) (c / 256 % 256) h)
    ∙ ap (λ k. checksum (before ++ (k % 256 ∷ k / 256 % 256 ∷ behind)) 0) e
    ∙ ap (λ x. checksum (before ++ (d % 256 ∷ x ∷ behind)) 0)
        (let r : d / 256 % 256 ≡ d / 256 =
            omega (arith, checksum-lt (before ++ (0 ∷ 0 ∷ behind)) 0) in
          r)
    ∙ checksum_verifies before behind (omega (arith, lb)) (omega (arith, lc)) (omega (arith, first))
        (omega (arith, small, small', lb, lc))
