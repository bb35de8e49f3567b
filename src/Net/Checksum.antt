-- ===== src/Net/Checksum.antt =====
-- checksum() of code-exp5/include/checksum.h, which folds the carries twice, of code-exp2, which folds
-- until no carry is left, and of code-exp7, which adds the odd byte behind the folds. The buffer is
-- its bytes; a u16 is read low byte first, as on the machines that the labs run on.
pub mod Agree
pub mod Verify
mod Examples
use njucn_lab.Common.{
  ℕ, zero, suc, ◌+◌, ◌-◌, ◌*◌, ◌/◌, ◌%◌, ◌^◌, List, [], ◌∷◌, Option, none, some, if◌then◌else◌, ltb,
  ◌==◌, length,
}

abbrev pub u32_mod : ℕ
u32_mod = 2 ^ 32

abbrev pub u16_mod : ℕ
u16_mod = 2 ^ 16

-- The whole words of the buffer, added up in a u32.
unfoldable pub sum_words : ℕ → List ℕ → ℕ
sum_words sum [] = sum
sum_words sum (b ∷ []) = sum
sum_words sum (lo ∷ hi ∷ rest) = sum_words ((sum + (lo + 256 * hi)) % u32_mod) rest

-- The byte that an odd length leaves over.
unfoldable pub odd_byte : List ℕ → ℕ
odd_byte [] = 0
odd_byte (b ∷ []) = b
odd_byte (lo ∷ hi ∷ rest) = odd_byte rest

-- (sum >> 16) + (sum & 0xffff)
abbrev pub fold : ℕ → ℕ
fold sum = sum / u16_mod + sum % u16_mod

-- (u16)~sum
abbrev pub complement : ℕ → ℕ
complement sum = u16_mod - 1 - sum % u16_mod

-- code-exp5: the odd byte first, and then exactly two folds, the second without cutting the sum.
unfoldable pub checksum : List ℕ → ℕ → ℕ
checksum buf sum =
    let start = if length buf % 2 == 0 then sum else (sum + odd_byte buf) % u32_mod in
    let once = fold (sum_words start buf) in complement (once + once / u16_mod)

-- while (sum >> 16); `none` is a loop that has not ended within the fuel.
pub fold_carries : ℕ → ℕ → Option ℕ
fold_carries zero sum = none
fold_carries (suc fuel) sum =
    let rest = fold_carries fuel (fold sum) in if sum / u16_mod == 0 then some sum else rest

pub complemented : Option ℕ → Option ℕ
complemented none = none
complemented (some s) = some (complement s)

-- code-exp2: the odd byte last. Three rounds are enough for a u32.
pub checksum_loop : List ℕ → ℕ → Option ℕ
checksum_loop buf sum =
    let words = sum_words sum buf in
    let total = if length buf % 2 == 0 then words else (words + odd_byte buf) % u32_mod in
    complemented (fold_carries 3 total)

-- code-exp7: the odd byte is added to the folded sum, and its carry is cut off.
unfoldable pub checksum_late : List ℕ → ℕ → ℕ
checksum_late buf sum =
    let once = fold (sum_words sum buf) in
    let twice = once + once / u16_mod in
    complement (if length buf % 2 == 0 then twice else twice + odd_byte buf)
