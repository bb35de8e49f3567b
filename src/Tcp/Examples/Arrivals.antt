-- ===== src/Tcp/Examples/Arrivals.antt =====
-- Two segments of a stream whose numbers go round, out of order.

use mathlib.Core.List.{Memᴰ}
use njucn_lab.Tcp.RingBuffer.Cells.{contents}
use njucn_lab.Common.{◌*◌, ◌-◌, ◌≡◌, ℕ, ◌≤◌, ◌<◌, ◌≡◌, ◌⊎◌, refl, List, [], ◌∷◌, ◌++◌, some, arith}
use njucn_lab.Tcp.RingBuffer.{free}
use njucn_lab.Tcp.RingBuffer.Inv.{alloc-IsValid}
use njucn_lab.Tcp.Sock.{Tcp, TcpCb, alloc_tcp_sock}
use njucn_lab.Tcp.Reorder.Stream.{IsPart, AllParts, bytes}
use njucn_lab.Tcp.Reorder.Arrivals.{AllSegments, receive_all}
use njucn_lab.Tcp.Reorder.Cuts.{IsCut, Rising, size}
use njucn_lab.Tcp.Reorder.Delivery.{AreSegments, At, receive_all_lem}
use njucn_lab.Tcp.Reorder.Stuck.{Same, overlap_blocks}
use njucn_lab.Tcp.Examples.{first, counting, tsk, one, arriving}

-- The second two bytes, and then the first two.
abbrev arrivals : List TcpCb
arrivals = arriving 0 2 (3 ∷ 4 ∷ []) ∷ arriving first 0 (1 ∷ 2 ∷ []) ∷ []

late-IsPart : IsPart counting first 0 (3 ∷ 4 ∷ [])
unfolding bytes
late-IsPart = record {
  offset = 2;
  numbered = refl;
  inside = omega arith;
  some_bytes = omega arith;
  read_off = refl;
}

early-IsPart : IsPart counting first first (1 ∷ 2 ∷ [])
unfolding bytes
early-IsPart = record {
  offset = 0;
  numbered = refl;
  inside = omega arith;
  some_bytes = omega arith;
  read_off = refl;
}

-- The stream is cut into segments of two bytes.
abbrev twos : ℕ → ℕ
twos i = i * 2

twos-IsCut : IsCut first twos 2
twos-IsCut = record { numbered = omega arith; rising = λ i h. omega arith; small = omega arith }

arrivals_segments : AreSegments counting first twos 2 twos-IsCut (1 ∷ 0 ∷ []) arrivals
unfolding bytes
arrivals_segments = (
  record { inside = omega arith; starts = refl; ends = refl; payload = refl },
  (record { inside = omega arith; starts = refl; ends = refl; payload = refl }, tt),
)

tsk-At : At counting first twos 2 twos-IsCut 0 [] tsk
unfolding Rising alloc_tcp_sock
tsk-At = record {
  inside = omega arith;
  next = refl;
  valid = (alloc-IsValid 8).0;
  entries = refl;
  ordered = tt;
}

receive_all_lem_example :
    (s' : Tcp) × (p : ℕ) × (js : List ℕ) × (receive_all arrivals one ≡ some s')
    × (0 ≤ p)
    × (contents s'.tsk.rcv_buf ≡ contents tsk.rcv_buf ++ bytes counting 0 (twos p - 0))
    × At counting first twos 2 twos-IsCut p js s'.tsk
    × ((k : ℕ) → Memᴰ k (1 ∷ 0 ∷ []) → (k < p) ⊎ Memᴰ k js)
    × (Memᴰ p (1 ∷ 0 ∷ []) → free s'.tsk.rcv_buf < size counting first twos p)
receive_all_lem_example =
    receive_all_lem counting first twos 2 twos-IsCut (1 ∷ 0 ∷ []) arrivals 0 one arrivals_segments
      tsk-At

-- With rcv_nxt one further: the first two bytes overlap what was received.
abbrev ahead : Tcp
ahead = record one { tsk = record tsk { rcv_nxt = 0xffffffff } }

overlap_blocks_example :
    (s' : Tcp) × (receive_all (arriving first 0 (1 ∷ 2 ∷ []) ∷ arrivals) ahead ≡ some s')
    × Same counting first ahead.tsk s'.tsk
unfolding AllSegments AllParts alloc_tcp_sock early-IsPart
overlap_blocks_example =
    overlap_blocks counting first 1 (arriving first 0 (1 ∷ 2 ∷ [])) arrivals ahead (omega arith)
      refl (omega arith) tt early-IsPart (omega arith) (omega arith) refl
      (late-IsPart, (early-IsPart, tt))
