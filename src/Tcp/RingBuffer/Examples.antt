-- ===== src/Tcp/RingBuffer/Examples.antt =====
-- The ring of code-exp2/include/ring_buffer.h on concrete bytes, also round its end.
use njucn_lab.Common.{
  ℕ, ◌+◌, ◌≡◌, ◌<◌, ◌≤◌, ◌⊎◌, refl, [], ◌∷◌, ◌++◌, none, some, take, drop, arith,
}
use njucn_lab.Tcp.RingBuffer.{RingBuffer, used, free, read, write}
use njucn_lab.Tcp.RingBuffer.Inv.{IsValid}
use njucn_lab.Tcp.RingBuffer.Cells.{contents}
use njucn_lab.Tcp.RingBuffer.Refine.{read_refines, write_refines, read-write}

-- Bytes 8 and 9 at the end of four cells, then 7 at their start.
abbrev wrapped : RingBuffer
wrapped = record { size = 5; head = 3; tail = 1; buf = 7 ∷ 0 ∷ 0 ∷ 8 ∷ 9 ∷ [] }

abbrev wrapped_full : RingBuffer
wrapped_full = record { size = 5; head = 3; tail = 2; buf = 7 ∷ 6 ∷ 0 ∷ 8 ∷ 9 ∷ [] }

wrapped-IsValid : IsValid wrapped
wrapped-IsValid = omega arith

contents-wrapped : contents wrapped ≡ 8 ∷ 9 ∷ 7 ∷ []
unfolding used
contents-wrapped = refl

read-wrapped :
    read wrapped 3 ≡ (3, 8 ∷ 9 ∷ 7 ∷ [], record { size = 5; head = 1; tail = 1; buf = wrapped.buf })
unfolding read used
read-wrapped = refl

write-wrapped : write wrapped (6 ∷ []) ≡ some wrapped_full
unfolding write free used
write-wrapped = refl

write-too_long : write wrapped (6 ∷ 5 ∷ []) ≡ none
unfolding write free used
write-too_long = refl

read_refines_example :
    let (len, bytes, r') = read wrapped 2 in
    (len ≡ 2)
    × (bytes ≡ take 2 (contents wrapped))
    × (contents r' ≡ drop 2 (contents wrapped))
    × IsValid r'
unfolding used
read_refines_example = read_refines 2 wrapped-IsValid

write_refines_example :
    ((0 < 1)
      × (1 ≤ free wrapped)
      × ((r' : RingBuffer) × (write wrapped (6 ∷ []) ≡ some r')
          × (contents r' ≡ contents wrapped ++ (6 ∷ []))
          × (free r' + 1 ≡ free wrapped)
          × IsValid r'))
    ⊎ (((◌≡◌ {A = ℕ} 1 0) ⊎ (free wrapped < 1)) × (write wrapped (6 ∷ []) ≡ none))
write_refines_example = write_refines (6 ∷ []) wrapped-IsValid

read-write_example : (read wrapped_full (used wrapped + 1)).1 ≡ contents wrapped ++ (6 ∷ [])
unfolding write free used
read-write_example = read-write (6 ∷ []) wrapped-IsValid refl
