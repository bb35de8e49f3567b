-- ===== src/Router/Rtable/Prefix.antt =====
-- The masks of code-exp5/ip_base.c: what the loop counts, and what a match under a network mask says.
use Prim.Native.Nat.{digits, bit_and, bit_and-bitwise}
use mathlib.Core.WellFounded.{Acc}
use native.Mathlib.Nat.{
  pow-suc, mul_assoc, mul_comm, mul-div_cancel, div-lt_iff_lt-mul, div-div-eq-div-mul,
}
use njucn_lab.Common.{
  ℕ, zero, suc, ◌+◌, ◌-◌, ◌*◌, ◌/◌, ◌%◌, ◌^◌, ◌≤◌, ◌<◌, min, ◌≡◌, ◌↔◌, refl, ap, ◌∙◌, true, arith,
  lt_wf, sym, ==_iff,
}
use njucn_lab.Router.Rtable.{RtEntry, count_ones, prefix_len, matches}

-- The number of ones among the lowest `w` bits.
pub popcount : ℕ → ℕ → ℕ
popcount zero mask = 0
popcount (suc w) mask = mask % 2 + popcount w (mask / 2)

popcount_zero : (w : ℕ) → popcount w 0 ≡ 0
unfolding popcount
popcount_zero zero = refl
popcount_zero (suc w) = omega (arith, popcount_zero w)

half_below : (mask w : ℕ) → mask < 2 ^ suc w → mask / 2 < 2 ^ w
half_below mask w h = omega (arith, pow-suc 2 w)

count_ones-popcount :
    (w acc mask : ℕ) (a : Acc ◌<◌ mask)
    → mask < 2 ^ w
    → count_ones acc mask a ≡ acc + popcount w mask
unfolding count_ones popcount
count_ones-popcount zero acc mask (Acc.intro _ smaller) h = grind arith
count_ones-popcount (suc w) acc mask (Acc.intro _ smaller) h = grind (
  arith,
  popcount_zero w,
  half_below mask w,
  λ (p : mask / 2 < mask). count_ones-popcount w (acc + mask % 2) (mask / 2) (smaller (mask / 2) p),
)

-- The loop counts the ones of a mask of at most 32 bits.
pub prefix_len-popcount : (mask : ℕ) → mask < 2 ^ 32 → prefix_len mask ≡ popcount 32 mask
unfolding prefix_len popcount
prefix_len-popcount mask h = count_ones-popcount 32 0 mask (lt_wf.apply mask) h ∙ (omega arith)

-- What `bit_and` stands for, with the number of digits as its first argument.
abbrev meet : ℕ → ℕ → ℕ → ℕ
meet fuel mask x = digits (λ _. zero) min fuel mask x

-- More digits than the number has change nothing.
meet_enough : (fuel more x y : ℕ) → x ≤ fuel → fuel ≤ more → meet more x y ≡ meet fuel x y
meet_enough zero zero zero y p q = refl
meet_enough zero (suc more) zero y p q = refl
meet_enough (suc fuel) zero x y p q = absurd (omega arith)
meet_enough (suc fuel) (suc more) zero y p q = refl
meet_enough zero more (suc x) y p q = absurd (omega arith)
meet_enough (suc fuel) (suc more) (suc x) y p q =
    omega (arith, meet_enough fuel more (suc x / 2) (y / 2) (omega arith) (omega arith))

bit_and-zero_left : (y : ℕ) → bit_and 0 y ≡ 0
bit_and-zero_left y = bit_and-bitwise 0 y

-- A conjunction bit by bit, from the lowest.
bit_and_halves : (x y : ℕ) → bit_and x y ≡ bit_and (x / 2) (y / 2) * 2 + min (x % 2) (y % 2)
bit_and_halves zero y = omega (arith, bit_and-zero_left y, bit_and-zero_left (y / 2))
bit_and_halves (suc x) y =
    let half = suc x / 2 in
    let tail : meet x half (y / 2) ≡ bit_and half (y / 2) =
      meet_enough half x half (y / 2) (omega arith) (omega arith)
      ∙ sym (bit_and-bitwise half (y / 2)) in
    omega (arith, bit_and-bitwise (suc x) y, tail)

-- The mask of `n` ones above `k` zeros.
abbrev pub net_mask : ℕ → ℕ → ℕ
net_mask n k = (2 ^ n - 1) * 2 ^ k

pow_pos : (n : ℕ) → 0 < 2 ^ n
pow_pos zero = omega arith
pow_pos (suc n) = omega (arith, pow_pos n, pow-suc 2 n)

ones_halves : (n : ℕ) → ((2 ^ suc n - 1) / 2 ≡ 2 ^ n - 1) × ((2 ^ suc n - 1) % 2 ≡ 1)
ones_halves n = omega (arith, pow-suc 2 n, pow_pos n)

net_mask_shift : (n k : ℕ) → net_mask n (suc k) ≡ net_mask n k * 2
net_mask_shift n k = ap (λ p. (2 ^ n - 1) * p) (pow-suc 2 k) ∙ sym (mul_assoc (2 ^ n - 1) (2 ^ k) 2)

net_mask_halves : (n k : ℕ) → (net_mask n (suc k) / 2 ≡ net_mask n k) × (net_mask n (suc k) % 2 ≡ 0)
net_mask_halves n k = rw (net_mask_shift n k) (omega arith)

net_mask_zero : (n : ℕ) → net_mask n 0 ≡ 2 ^ n - 1
net_mask_zero n = omega arith

div_shift : (x k : ℕ) → x / 2 ^ suc k ≡ x / 2 / 2 ^ k
div_shift x k =
    ap (λ p. x / p) (pow-suc 2 k ∙ mul_comm (2 ^ k) 2) ∙ sym (div-div-eq-div-mul x 2 (2 ^ k))

bit_and_ones : (n x : ℕ) → x < 2 ^ n → bit_and x (2 ^ n - 1) ≡ x
bit_and_ones zero x h =
    omega (arith, bit_and-zero_left 0, ap (λ y. bit_and y 0) (let e : x ≡ 0 = omega arith in e))
bit_and_ones (suc n) x h =
    bit_and_halves x (2 ^ suc n - 1)
    ∙ rw ((ones_halves n).0, (ones_halves n).1, bit_and_ones n (x / 2) (half_below x n h))
        (omega arith)

bit_and-net_mask : (n k x : ℕ) → x / 2 ^ k < 2 ^ n → bit_and x (net_mask n k) ≡ x / 2 ^ k * 2 ^ k
bit_and-net_mask n zero x h =
    ap (bit_and x) (net_mask_zero n) ∙ bit_and_ones n x (omega arith) ∙ (omega arith)
bit_and-net_mask n (suc k) x h =
    bit_and_halves x (net_mask n (suc k))
    ∙ rw ((net_mask_halves n k).0, (net_mask_halves n k).1, div_shift x k)
        (rw (bit_and-net_mask n k (x / 2) (rw (← div_shift x k) h), pow-suc 2 k) (grind arith))

popcount-ones : (n w : ℕ) → n ≤ w → popcount w (2 ^ n - 1) ≡ n
unfolding popcount
popcount-ones zero w h = popcount_zero w
popcount-ones (suc n) zero h = absurd (omega arith)
popcount-ones (suc n) (suc w) h =
    rw ((ones_halves n).0, (ones_halves n).1) (omega (arith, popcount-ones n w (omega arith)))

popcount-net_mask : (n k w : ℕ) → n + k ≤ w → popcount w (net_mask n k) ≡ n
unfolding popcount
popcount-net_mask n zero w h = ap (popcount w) (net_mask_zero n) ∙ popcount-ones n w (omega arith)
popcount-net_mask n (suc k) zero h = absurd (omega arith)
popcount-net_mask n (suc k) (suc w) h =
    rw ((net_mask_halves n k).0, (net_mask_halves n k).1)
      (omega (arith, popcount-net_mask n k w (omega arith)))

pow_split : (n k j : ℕ) → n + k ≡ j → 2 ^ j ≡ 2 ^ n * 2 ^ k
pow_split n zero j h = ap (λ i. 2 ^ i) (let e : j ≡ n = omega arith in e) ∙ (omega arith)
pow_split n (suc k) zero h = absurd (omega arith)
pow_split n (suc k) (suc j) h =
    rw (pow-suc 2 j, pow-suc 2 k, pow_split n k j (omega arith)) (omega arith)

times_cancel : (x y p : ℕ) → 0 < p → x * p ≡ y * p → x ≡ y
times_cancel x y p h e = sym (mul-div_cancel x h) ∙ ap (λ z. z / p) e ∙ mul-div_cancel y h

net_mask-lt : (n k : ℕ) → n + k ≡ 32 → net_mask n k < 2 ^ 32
net_mask-lt n k h =
    let t = 2 ^ n - 1 in
    let whole : (t + 1) * 2 ^ k ≡ 2 ^ n * 2 ^ k =
      ap (λ z. z * 2 ^ k) (let e : t + 1 ≡ 2 ^ n = omega (arith, pow_pos n) in e) in
    omega (arith, whole, pow_split n k 32 h, pow_pos k)

below_shift : (n k x : ℕ) → n + k ≡ 32 → x < 2 ^ 32 → x / 2 ^ k < 2 ^ n
below_shift n k x h l = (div-lt_iff_lt-mul (pow_pos k)).1 (omega (arith, pow_split n k 32 h))

-- Under the mask of an n-bit network an address matches exactly if its n highest bits are those of
-- the entry, and the entry's length counts as n.
pub matches-net_mask :
    (n k dst : ℕ) (e : RtEntry)
    → n + k ≡ 32
    → e.mask ≡ net_mask n k
    → dst < 2 ^ 32
    → e.dest < 2 ^ 32
    → (prefix_len e.mask ≡ n) × ((matches dst e ≡ true) ↔ (dst / 2 ^ k ≡ e.dest / 2 ^ k))
unfolding matches
matches-net_mask n k dst e h m ld le = (
  ap prefix_len m
      ∙ prefix_len-popcount (net_mask n k) (net_mask-lt n k h)
      ∙ popcount-net_mask n k 32 (omega arith),
  rw
      (
        m,
        bit_and-net_mask n k dst (below_shift n k dst h ld),
        bit_and-net_mask n k e.dest (below_shift n k e.dest h le),
      )
      (
        (λ t. times_cancel _ _ (2 ^ k) (pow_pos k) ((==_iff _ _).0 t)),
        (λ q. (==_iff _ _).1 (ap (λ z. z * 2 ^ k) q)),
      ),
)
