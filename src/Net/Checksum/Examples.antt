-- ===== src/Net/Checksum/Examples.antt =====
-- The checksums on concrete buffers: an IP header, and an odd byte that carries.
use njucn_lab.Common.{ℕ, ◌+◌, ◌%◌, ◌/◌, ◌≡◌, refl, List, [], ◌∷◌, ◌++◌, some, arith}
use njucn_lab.Net.Checksum.{checksum, checksum_loop, checksum_late, sum_words, odd_byte}
use njucn_lab.Net.Checksum.Agree.{checksum_loop-checksum}
use njucn_lab.Net.Checksum.Verify.{total, checksum_verifies, checksum_late_wrong}

abbrev front : List ℕ
front = 0x45 ∷ 0 ∷ 0 ∷ 0x73 ∷ 0 ∷ 0 ∷ 0x40 ∷ 0 ∷ 0x40 ∷ 0x11 ∷ []

abbrev back : List ℕ
back = 0xc0 ∷ 0xa8 ∷ 0 ∷ 1 ∷ 0xc0 ∷ 0xa8 ∷ 0 ∷ 0xc7 ∷ []

abbrev carrying : List ℕ
carrying = 0xff ∷ 0xff ∷ 1 ∷ []

header_checksum : checksum (front ++ (0 ∷ 0 ∷ back)) 0 ≡ 0x61b8
unfolding checksum sum_words
header_checksum = refl

carrying_checksums : (checksum carrying 0 ≡ 0xfffe) × (checksum_late carrying 0 ≡ 0xffff)
unfolding checksum checksum_late sum_words odd_byte
carrying_checksums = (refl, refl)

checksum_loop-checksum_example : checksum_loop carrying 0 ≡ some (checksum carrying 0)
checksum_loop-checksum_example = checksum_loop-checksum carrying 0 (omega arith)

checksum_verifies_example :
    let c = checksum (front ++ (0 ∷ 0 ∷ back)) 0 in
    checksum (front ++ (c % 256 ∷ c / 256 ∷ back)) 0 ≡ 0
unfolding total
checksum_verifies_example = checksum_verifies front back refl refl (omega arith) (omega arith)

checksum_late_wrong_example : checksum_late carrying 0 ≡ checksum carrying 0 + 1
unfolding total odd_byte
checksum_late_wrong_example =
    checksum_late_wrong carrying 0 refl (omega arith) (omega arith) (omega arith)
