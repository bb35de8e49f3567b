-- ===== src/Switch/Hash.antt =====
-- hash8 of code-exp9/include/hash.h, and the comparison of hardware addresses by memcmp.
use Prim.Native.Nat.{bit_xor}
use njucn_lab.Common.{ℕ, ◌%◌, ◌<◌, ◌≡◌, ◌↔◌, List, [], ◌∷◌, Bool, true, false, ◌&&◌, ◌==◌, arith}

-- `u8 result` is cut to a byte in each round, so the sign of `char` does not matter.
abbrev hash8_from : ℕ → List ℕ → ℕ
hash8_from result [] = result
hash8_from result (b ∷ buf) = hash8_from (bit_xor result b % 256) buf

unfoldable pub hash8 : List ℕ → ℕ
hash8 buf = hash8_from 0 buf

hash8_from-lt : (result : ℕ) (buf : List ℕ) → result < 256 → hash8_from result buf < 256
hash8_from-lt result [] h = h
hash8_from-lt result (b ∷ buf) h = hash8_from-lt (bit_xor result b % 256) buf (omega arith)

-- Every address has a bucket of a table of 256 buckets.
pub hash8-lt : (buf : List ℕ) → hash8 buf < 256
unfolding hash8
hash8-lt buf = hash8_from-lt 0 buf (omega arith)

-- memcmp(a, b, ETH_ALEN) == 0
unfoldable pub mac_eq : List ℕ → List ℕ → Bool
mac_eq [] [] = true
mac_eq [] (y ∷ ys) = false
mac_eq (x ∷ xs) [] = false
mac_eq (x ∷ xs) (y ∷ ys) = (x == y) && mac_eq xs ys

pub mac_eq_iff : (xs ys : List ℕ) → (mac_eq xs ys ≡ true) ↔ (xs ≡ ys)
unfolding mac_eq
mac_eq_iff [] [] = ground arith
mac_eq_iff [] (y ∷ ys) = ground arith
mac_eq_iff (x ∷ xs) [] = ground arith
mac_eq_iff (x ∷ xs) (y ∷ ys) = ground (arith, mac_eq_iff xs ys)
