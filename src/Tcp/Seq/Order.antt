-- ===== src/Tcp/Seq/Order.antt =====
-- The comparisons order what lies within 2^31 of each other.
use njucn_lab.Common.{ℕ, ◌^◌, ◌≤◌, ◌<◌, ◌≡◌, ◌↔◌, true, arith}
use njucn_lab.Tcp.Seq.{add32, less_than_32b, less_or_equal_32b}

-- Two sequence numbers that lie at distances m and n, both below 2^31, behind a base compare as the
-- distances do, wherever the base is and though the numbers may go round.
pub less_than_32b-add32 :
    (base m n : ℕ)
    → base < 2 ^ 32
    → m < 2 ^ 31
    → n < 2 ^ 31
    → ((less_than_32b (add32 base m) (add32 base n) ≡ true) ↔ (m < n))
      × ((less_or_equal_32b (add32 base m) (add32 base n) ≡ true) ↔ (m ≤ n))
unfolding less_than_32b less_or_equal_32b
less_than_32b-add32 base m n hb hm hn = ground arith
