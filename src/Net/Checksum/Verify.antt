-- ===== src/Net/Checksum/Verify.antt =====
-- What the checksum is for: it completes the sum of the data to a multiple of 65535, and a buffer that
-- carries its own checksum sums up to no error.
use njucn_lab.Common.{
  ℕ, ◌+◌, ◌*◌, ◌/◌, ◌%◌, ◌≤◌, ◌<◌, ◌≡◌, List, [], ◌∷◌, ◌++◌, arith, ◌∙◌, length, ap, length-append,
}
use njucn_lab.Net.Checksum.{
  u32_mod, u16_mod, sum_words, odd_byte, fold, complement, checksum, checksum_late,
}

-- The sum of the words of a buffer, with no wrap.
unfoldable pub total : List ℕ → ℕ
total [] = 0
total (b ∷ []) = 0
total (lo ∷ hi ∷ rest) = lo + 256 * hi + total rest

sum_words-total :
    (sum : ℕ) (buf : List ℕ) → sum + total buf < u32_mod → sum_words sum buf ≡ sum + total buf
unfolding sum_words total
sum_words-total sum [] h = omega arith
sum_words-total sum (b ∷ []) h = omega arith
sum_words-total sum (lo ∷ hi ∷ rest) h =
    sum_words-total ((sum + (lo + 256 * hi)) % u32_mod) rest (omega arith) ∙ (omega arith)

total-append : (xs ys : List ℕ) → length xs % 2 ≡ 0 → total (xs ++ ys) ≡ total xs + total ys
unfolding total
total-append [] ys h = omega arith
total-append (b ∷ []) ys h = absurd (omega arith)
total-append (lo ∷ hi ∷ rest) ys h = omega (arith, total-append rest ys (omega arith))

-- Two folds and the complement.
abbrev pub finish : ℕ → ℕ
finish s = complement (fold s + fold s / u16_mod)

checksum-even :
    (buf : List ℕ) (sum : ℕ)
    → length buf % 2 ≡ 0
    → sum + total buf < u32_mod
    → checksum buf sum ≡ finish (sum + total buf)
unfolding checksum
checksum-even buf sum even h = ground (arith, sum_words-total sum buf h)

finish-finish : (n : ℕ) → 0 < n → n + u16_mod < u32_mod → finish (n + finish n) ≡ 0
finish-finish n pos h = omega arith

-- With the checksum the sum of the data is a multiple of 65535, and it is not zero.
pub checksum_completes :
    (buf : List ℕ) (sum : ℕ)
    → length buf % 2 ≡ 0
    → sum + total buf < u32_mod
    → ((sum + total buf + checksum buf sum) % 65535 ≡ 0) × (checksum buf sum < u16_mod)
checksum_completes buf sum even h = omega (arith, checksum-even buf sum even h)

-- A buffer whose zeroed checksum field is filled with the checksum has itself checksum zero, as the
-- receivers of RFC 1071 expect, if its bytes are not all zero.
pub checksum_verifies :
    (before behind : List ℕ)
    → length before % 2 ≡ 0
    → length behind % 2 ≡ 0
    → 0 < total before + total behind
    → total before + total behind + u16_mod < u32_mod
    → let c = checksum (before ++ (0 ∷ 0 ∷ behind)) 0 in
      checksum (before ++ (c % 256 ∷ c / 256 ∷ behind)) 0 ≡ 0
unfolding total
checksum_verifies before behind he hb pos small =
    let n = total before + total behind in
    let even : (x y : ℕ) → length (before ++ (x ∷ y ∷ behind)) % 2 ≡ 0 =
      λ x y. omega (arith, length-append before (x ∷ y ∷ behind)) in
    let c : checksum (before ++ (0 ∷ 0 ∷ behind)) 0 ≡ finish n =
      checksum-even _ 0 (even 0 0) (omega (arith, total-append before (0 ∷ 0 ∷ behind) he))
      ∙ ap finish (omega (arith, total-append before (0 ∷ 0 ∷ behind) he)) in
    rw c (
      checksum-even _ 0 (even (finish n % 256) (finish n / 256))
        (omega (arith, total-append before (finish n % 256 ∷ finish n / 256 ∷ behind) he))
      ∙ ap finish (omega (arith, total-append before (finish n % 256 ∷ finish n / 256 ∷ behind) he))
      ∙ finish-finish n pos small)

late_by_one :
    (n b : ℕ)
    → n + b < u32_mod
    → b < 256
    → u16_mod ≤ (fold n + fold n / u16_mod) % u16_mod + b
    → complement (fold n + fold n / u16_mod + b) ≡ finish (n + b) + 1
late_by_one n b h small carry = omega arith

-- On a buffer of odd length the version of code-exp7 is wrong whenever the odd byte carries out of
-- the folded sum: it is too great by one.
pub checksum_late_wrong :
    (buf : List ℕ) (sum : ℕ)
    → length buf % 2 ≡ 1
    → odd_byte buf < 256
    → sum + total buf + odd_byte buf < u32_mod
    → let once = fold (sum + total buf) in
      u16_mod ≤ (once + once / u16_mod) % u16_mod + odd_byte buf
      → checksum_late buf sum ≡ checksum buf sum + 1
unfolding checksum checksum_late
checksum_late_wrong buf sum odd small h carry = ground (
  arith,
  sum_words-total sum buf,
  sum_words-total (sum + odd_byte buf) buf,
  late_by_one (sum + total buf) (odd_byte buf),
)

pub checksum_late-lt : (buf : List ℕ) (sum : ℕ) → checksum_late buf sum < u16_mod
unfolding checksum_late
checksum_late-lt buf sum = omega arith

pub checksum-lt : (buf : List ℕ) (sum : ℕ) → checksum buf sum < u16_mod
unfolding checksum
checksum-lt buf sum = omega arith
