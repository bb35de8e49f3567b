-- ===== src/Tcp/RingBuffer.antt =====
-- code-exp2/include/ring_buffer.h: the byte ring that holds what a socket has received. One cell
-- stays unused, to tell a full ring from an empty one. Bytes are moved and never computed with.
pub mod Inv
pub mod Cells
pub mod Refine
mod Examples
use njucn_lab.Common.{
  ℕ, ◌+◌, ◌-◌, ◌%◌, min, List, [], ◌++◌, Bool, ◌&&◌, Option, none, some, length, slice, blit, take,
  drop, replicate, ltb, leb, ◌==◌, if◌then◌else◌,
}

pub record RingBuffer : Type 0 where
  pub size : ℕ
  -- read from head
  pub head : ℕ
  -- write from tail
  pub tail : ℕ
  pub buf : List ℕ

pub alloc : ℕ → RingBuffer
alloc size = record { size = size + 1; head = 0; tail = 0; buf = replicate (size + 1) 0 }

-- The source adds the size last; the sum is the same, and here no term is negative.
pub used : RingBuffer → ℕ
used r = (r.tail + r.size - r.head) % r.size

pub free : RingBuffer → ℕ
free r = r.size - used r - 1

pub empty : RingBuffer → Bool
empty r = used r == 0

pub full : RingBuffer → Bool
full r = free r == 0

-- What the copies out of the ring put into the caller's buffer.
pub copied_out : RingBuffer → ℕ → List ℕ
copied_out r len =
    let right = r.size - r.head in
    let left = len - right in
    if ltb r.size (r.head + len)
    then slice r.buf r.head right ++ slice r.buf 0 left
    else slice r.buf r.head len

-- The result, the bytes read, and the ring afterwards.
pub read : RingBuffer → ℕ → ℕ × List ℕ × RingBuffer
unfolding copied_out
read r size =
    let len = min (used r) size in
    if ltb 0 len
    then (len, copied_out r len, record r { head = (r.head + len) % r.size })
    else (len, [], r)

-- The copies into the ring.
pub copied_in : RingBuffer → List ℕ → List ℕ
copied_in r bytes =
    let right = r.size - r.tail in
    if ltb r.size (r.tail + length bytes)
    then blit (blit r.buf r.tail (take right bytes)) 0 (drop right bytes)
    else blit r.buf r.tail bytes

-- The bytes are `buf[0..size)`; `none` is a failed assertion, which ends the process.
pub write : RingBuffer → List ℕ → Option RingBuffer
unfolding copied_in
write r bytes =
    let len = length bytes in
    if ltb 0 len && leb len (free r)
    then some (record r { buf = copied_in r bytes; tail = (r.tail + len) % r.size })
    else none
