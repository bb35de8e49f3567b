-- ===== src/Net/Checksum/Agree.antt =====
-- The two versions of checksum() compute the same function.
use njucn_lab.Common.{
  ℕ, suc, ◌+◌, ◌*◌, ◌/◌, ◌%◌, ◌<◌, ◌≡◌, refl, List, [], ◌∷◌, some, arith, ◌∙◌, length, ap,
  Bool-cases, inl, inr, true, ◌==◌,
}
use njucn_lab.Net.Checksum.{
  u32_mod, u16_mod, sum_words, odd_byte, fold, complement, complemented, checksum, fold_carries,
  checksum_loop, checksum_late,
}

pub sum_words-lt : (sum : ℕ) (buf : List ℕ) → sum < u32_mod → sum_words sum buf < u32_mod
unfolding sum_words
sum_words-lt sum [] h = h
sum_words-lt sum (b ∷ []) h = h
sum_words-lt sum (lo ∷ hi ∷ rest) h =
    sum_words-lt ((sum + (lo + 256 * hi)) % u32_mod) rest (omega arith)

-- The order of the additions does not matter.
sum_words-add :
    (sum k : ℕ) (buf : List ℕ)
    → sum < u32_mod
    → sum_words ((sum + k) % u32_mod) buf ≡ (sum_words sum buf + k) % u32_mod
unfolding sum_words
sum_words-add sum k [] h = refl
sum_words-add sum k (b ∷ []) h = refl
sum_words-add sum k (lo ∷ hi ∷ rest) h =
    ap (λ s. sum_words s rest)
      (let e : ((sum + k) % u32_mod + (lo + 256 * hi)) % u32_mod
            ≡ ((sum + (lo + 256 * hi)) % u32_mod + k) % u32_mod =
          omega arith in
        e)
    ∙ sum_words-add ((sum + (lo + 256 * hi)) % u32_mod) k rest (omega arith)

-- Two folds of a u32 leave no carry, so that the loop ends within three rounds, and as the two folds do.
fold_carries_twice :
    (sum fuel : ℕ)
    → sum < u32_mod
    → (s : ℕ) × (fold_carries (suc (suc (suc fuel))) sum ≡ some s)
      × (complement s ≡ complement (fold sum + fold sum / u16_mod))
unfolding fold_carries
fold_carries_twice sum fuel h = elim (Bool-cases (sum / u16_mod == 0)) [
  | inl e ↦ (sum, rw e, ground arith)
  | inr e ↦ elim (Bool-cases (fold sum / u16_mod == 0)) [
    | inl e' ↦ (fold sum, rw (e, e'), ground arith)
    | inr e' ↦
        let last : (fold (fold sum) / u16_mod == 0) ≡ true = ground arith in
        (fold (fold sum), rw (e, e', last), ground arith)
  ]
]

complemented-some : (s : ℕ) → complemented (some s) ≡ some (complement s)
unfolding complemented
complemented-some s = refl

-- Folding in a loop and folding twice give the same checksum, for every buffer and every initial sum.
pub checksum_loop-checksum :
    (buf : List ℕ) (sum : ℕ) → sum < u32_mod → checksum_loop buf sum ≡ some (checksum buf sum)
unfolding checksum checksum_loop
checksum_loop-checksum buf sum h = elim (Bool-cases (length buf % 2 == 0)) [
  | inl e ↦
      let (s, loop, same) = fold_carries_twice (sum_words sum buf) 0 (sum_words-lt sum buf h) in
      rw (e, loop, complemented-some) (ap some same)
  | inr e ↦
      let (s, loop, same) =
        fold_carries_twice ((sum_words sum buf + odd_byte buf) % u32_mod) 0 (omega arith) in
      rw (e, loop, complemented-some, sum_words-add sum (odd_byte buf) buf h) (ap some same)
]

-- For a buffer of even length the version of code-exp7 is the same function too.
pub checksum_late-even :
    (buf : List ℕ) (sum : ℕ) → length buf % 2 ≡ 0 → checksum_late buf sum ≡ checksum buf sum
unfolding checksum checksum_late
checksum_late-even buf sum h = ground arith
