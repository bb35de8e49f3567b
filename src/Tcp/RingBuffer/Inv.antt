-- ===== src/Tcp/RingBuffer/Inv.antt =====
-- The representation invariant of `struct ring_buffer`: both ends lie in the ring, and the ring in
-- its storage.
use njucn_lab.Common.{
  ℕ, ◌+◌, ◌-◌, ◌≤◌, ◌<◌, ◌≡◌, List, length, length-replicate, length-blit, take, drop, arith, blit,
  some, true, mod_small, mod_once, ◌⊎◌, inl, inr,
}
use native.Mathlib.Decide.{dec_le}
use njucn_lab.Tcp.RingBuffer.{RingBuffer, alloc, used, free, empty, read, copied_in, write}

pub record IsValid (r : RingBuffer) : Type 0 where
  pub head_in : r.head < r.size
  pub tail_in : r.tail < r.size
  pub storage : length r.buf ≡ r.size

-- The remainder in `used` goes round once at most.
pub used_cases :
    {r : RingBuffer}
    → IsValid r
    → ((r.head ≤ r.tail) × (used r ≡ r.tail - r.head))
      ⊎ ((r.tail < r.head) × (used r ≡ r.tail + r.size - r.head))
unfolding used
used_cases {r} v = elim (dec_le r.head r.tail) [
  | yes h ↦
      inl (h, omega (arith, mod_once (r.tail + r.size - r.head) r.size (omega arith) (omega arith)))
  | no h ↦ inr (omega arith, mod_small (r.tail + r.size - r.head) r.size (omega arith))
]

pub used-lt : {r : RingBuffer} → IsValid r → used r < r.size
used-lt v = ground (arith, used_cases v)

alloc_parts-IsValid : (n : ℕ) → IsValid (alloc n)
unfolding alloc
alloc_parts-IsValid n = record {
  head_in = omega arith;
  tail_in = omega arith;
  storage = length-replicate (n + 1) 0;
}

-- A new ring is valid and empty, and has room for what was asked.
pub alloc-IsValid : (n : ℕ) → IsValid (alloc n) × (empty (alloc n) ≡ true) × (free (alloc n) ≡ n)
unfolding alloc empty free
alloc-IsValid n = (
  alloc_parts-IsValid n,
  ground (arith, used_cases (alloc_parts-IsValid n)),
  ground (arith, used_cases (alloc_parts-IsValid n)),
)

-- The bytes held and the room left make up all cells but one.
pub used-add-free : {r : RingBuffer} → IsValid r → used r + free r + 1 ≡ r.size
unfolding free
used-add-free v = omega (arith, used-lt v)

pub length-copied_in : (r : RingBuffer) (bytes : List ℕ) → length (copied_in r bytes) ≡ length r.buf
unfolding copied_in
length-copied_in r bytes = ground (
  arith,
  length-blit (blit r.buf r.tail (take (r.size - r.tail) bytes)) 0 (drop (r.size - r.tail) bytes),
  length-blit r.buf r.tail (take (r.size - r.tail) bytes),
  length-blit r.buf r.tail bytes,
)

pub read-IsValid : {r : RingBuffer} (n : ℕ) → IsValid r → IsValid (read r n).2
unfolding read
read-IsValid n v = ground arith

pub write-IsValid :
    {r r' : RingBuffer} (bytes : List ℕ) → IsValid r → write r bytes ≡ some r' → IsValid r'
unfolding write
write-IsValid {r} bytes v e = ground (arith, length-copied_in r bytes)
