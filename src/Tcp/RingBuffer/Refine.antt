-- ===== src/Tcp/RingBuffer/Refine.antt =====
-- A valid ring behaves as the list of the bytes that it holds, oldest first.
use njucn_lab.Common.{
  ℕ, ◌≤◌, ◌<◌, min, ◌≡◌, List, ◌++◌, some, none, length, length-append, take, drop, arith, ltb, leb,
  ◌&&◌, ◌+◌, Bool-cases, take-min, take_all, subst, drop-min, inl, inr, ◌⊎◌, sym, ap, ◌∙◌,
}
use njucn_lab.Tcp.RingBuffer.{RingBuffer, used, free, read, write}
use njucn_lab.Tcp.RingBuffer.Inv.{IsValid, used-add-free}
use njucn_lab.Tcp.RingBuffer.Cells.{
  contents, length-contents, copied_out-contents, contents-advanced, contents-extended, extended,
  extended-IsValid, used-extended,
}

-- Reading takes as many bytes as there are and as are asked for: it returns their number, copies out
-- exactly the oldest ones in order, leaves the others, and keeps the ring valid.
pub read_refines :
    {r : RingBuffer} (n : ℕ)
    → IsValid r
    → let (len, bytes, r') = read r n in
      (len ≡ min (length (contents r)) n)
      × (bytes ≡ take n (contents r))
      × (contents r' ≡ drop n (contents r))
      × IsValid r'
unfolding read
read_refines {r} n v =
    let shorter = take-min (contents r) (min (used r) n) n (omega (arith, length-contents r)) in
    let rest = drop-min (contents r) (min (used r) n) n (omega (arith, length-contents r)) in
    elim (Bool-cases (ltb 0 (min (used r) n))) [
      | inl e ↦ rw e (
        omega (arith, length-contents r),
        copied_out-contents v (min (used r) n) (omega arith) ∙ shorter,
        contents-advanced v (min (used r) n) (omega arith) ∙ rest,
        record { head_in = omega (arith, v.head_in); tail_in = v.tail_in; storage = v.storage },
      )
      | inr e ↦
          let none_read : min (used r) n ≡ 0 = ground arith in
          rw e (
            omega (arith, length-contents r),
            sym (ap (λ k. take k (contents r)) none_read) ∙ shorter,
            sym (ap (λ k. drop k (contents r)) none_read) ∙ rest,
            v,
          )
    ]

-- Writing succeeds exactly when there is something to write and room for all of it; it appends the
-- bytes to those held, uses up that much room, and keeps the ring valid.
pub write_refines :
    {r : RingBuffer} (bytes : List ℕ)
    → IsValid r
    → ((0 < length bytes)
        × (length bytes ≤ free r)
        × ((r' : RingBuffer) × (write r bytes ≡ some r')
            × (contents r' ≡ contents r ++ bytes)
            × (free r' + length bytes ≡ free r)
            × IsValid r'))
      ⊎ (((length bytes ≡ 0) ⊎ (free r < length bytes)) × (write r bytes ≡ none))
unfolding write
write_refines {r} bytes v =
    elim (Bool-cases (ltb 0 (length bytes) && leb (length bytes) (free r))) [
      | inl e ↦
          let room : length bytes ≤ free r = ground arith in
          inl (
            ground arith,
            room,
            (
              extended v bytes,
              rw e,
              contents-extended v bytes room,
              omega (
                arith,
                used-extended v bytes room,
                used-add-free v,
                used-add-free (extended-IsValid v bytes),
              ),
              extended-IsValid v bytes,
            ),
          )
      | inr e ↦ inr (ground arith, rw e)
    ]

-- A write and a read of everything give back what the ring held and then what was written.
pub read-write :
    {r r' : RingBuffer} (bytes : List ℕ)
    → IsValid r
    → write r bytes ≡ some r'
    → (read r' (used r + length bytes)).1 ≡ contents r ++ bytes
read-write {r} {r'} bytes v w = elim (write_refines bytes v) [
  | inl (_, _, (s, ws, cs, _, vs)) ↦
      let same : s ≡ r' = ground arith in
      subst (λ q. (read q (used r + length bytes)).1 ≡ contents r ++ bytes) same
        ((read_refines (used r + length bytes) vs).1
          ∙ take_all (contents s) (used r + length bytes)
              (omega (arith, ap length cs, length-append (contents r) bytes, length-contents r))
          ∙ cs)
  | inr (_, n) ↦ cc
]
