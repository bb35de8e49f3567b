-- ===== src/Tcp/Seq.antt =====
-- The comparisons of sequence numbers in code-exp2/include/tcp.h. The difference of two int32 is
-- taken to go round, which C leaves undefined and gcc does, and is negative if its highest bit is set.
pub mod Order
use njucn_lab.Common.{ℕ, ◌+◌, ◌-◌, ◌%◌, ◌^◌, Bool, ltb, leb, ◌==◌, if◌then◌else◌}

-- u32 arithmetic on arguments that fit.
abbrev pub add32 : ℕ → ℕ → ℕ
add32 a b = (a + b) % 2 ^ 32

abbrev pub sub32 : ℕ → ℕ → ℕ
sub32 a b = (a + (2 ^ 32 - b)) % 2 ^ 32

unfoldable pub less_than_32b : ℕ → ℕ → Bool
less_than_32b a b = leb (2 ^ 31) (sub32 a b)

unfoldable pub less_or_equal_32b : ℕ → ℕ → Bool
less_or_equal_32b a b = if sub32 a b == 0 then Bool.true else leb (2 ^ 31) (sub32 a b)
