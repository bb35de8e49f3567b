-- ===== src/Tcp/Reorder/Stuck.antt =====
-- A segment that overlaps what was received stays at the head of the buffer, and ends every walk.
use njucn_lab.Common.{
  ℕ, ◌+◌, ◌^◌, ◌<◌, ◌≡◌, ◌↔◌, refl, ◌∙◌, List, [], ◌∷◌, inl, inr, some, true, false, Bool-cases,
  length, ◌==◌, arith,
}
use njucn_lab.Tcp.RingBuffer.{RingBuffer}
use njucn_lab.Tcp.Seq.{add32, less_than_32b, less_or_equal_32b}
use njucn_lab.Tcp.Seq.Order.{less_than_32b-add32}
use njucn_lab.Tcp.Sock.{Tcp, TcpSock, TcpCb, RecvOfoBufEntry}
use njucn_lab.Tcp.Out.{tcp_send_control_packet}
use njucn_lab.Tcp.Reorder.{
  moved_to, insert_entry, move_entries, tcp_recv_ofo_buffer_add_packet, tcp_move_recv_ofo_buffer,
  store_moved, receive_data,
}
use njucn_lab.Tcp.Reorder.Stream.{IsPart, AllParts}
use njucn_lab.Tcp.Reorder.Arrivals.{AllSegments, receive_all}

module _ (stream : ℕ → ℕ) (base : ℕ) where
  -- The buffer starts with a part of the stream that starts before offset `n`.
  pub record Blocked (n : ℕ) (es : List RecvOfoBufEntry) : Type 0 where
    pub head : RecvOfoBufEntry
    pub rest : List RecvOfoBufEntry
    pub starts : es ≡ head ∷ rest
    pub part : IsPart stream base head.seq head.packet
    pub behind : part.offset < n

  before_iff :
      {a b : ℕ} {packet packet' : List ℕ} (p : IsPart stream base a packet)
      (q : IsPart stream base b packet')
      → base < 2 ^ 32
      → (less_than_32b a b ≡ true) ↔ (p.offset < q.offset)
  before_iff p q hb =
      rw (p.numbered, q.numbered)
        (less_than_32b-add32 base p.offset q.offset hb (omega (arith, p.inside))
          (omega (arith, q.inside))).0

  insert_behind :
      {n : ℕ} (new : RecvOfoBufEntry) (es : List RecvOfoBufEntry)
      → (p : IsPart stream base new.seq new.packet) → p.offset < n
      → AllParts stream base es
      → base < 2 ^ 32
      → Blocked n (insert_entry new es)
  unfolding insert_entry AllParts
  insert_behind new [] p h ps hb = record {
    head = new;
    rest = [];
    starts = refl;
    part = p;
    behind = h;
  }
  insert_behind {n} new (e ∷ es) p h (q, ps) hb =
      let order = before_iff p q hb in
      elim (Bool-cases (new.seq == e.seq)) [
        | inl same ↦ rw same (record {
          head = e;
          rest = es;
          starts = refl;
          part = q;
          behind = ground (arith, p.numbered, q.numbered, p.inside, q.inside);
        })
        | inr other ↦ elim (Bool-cases (less_than_32b new.seq e.seq)) [
          | inl less ↦
              rw (other, less)
                (record { head = new; rest = e ∷ es; starts = refl; part = p; behind = h })
          | inr more ↦
              rw (other, more)
                (record {
                  head = e;
                  rest = insert_entry new es;
                  starts = refl;
                  part = q;
                  behind = ground (arith, order);
                })
        ]
      ]

  insert-Blocked :
      {n : ℕ} (new : RecvOfoBufEntry) (es : List RecvOfoBufEntry)
      → IsPart stream base new.seq new.packet
      → Blocked n es
      → base < 2 ^ 32
      → Blocked n (insert_entry new es)
  unfolding insert_entry
  insert-Blocked {n} new es p b hb = rw b.starts (elim (Bool-cases (new.seq == b.head.seq)) [
    | inl same ↦
        rw same
          (record { head = b.head; rest = b.rest; starts = refl; part = b.part; behind = b.behind })
    | inr other ↦ elim (Bool-cases (less_than_32b new.seq b.head.seq)) [
      | inl less ↦
          rw (other, less)
            (record {
              head = new;
              rest = b.head ∷ b.rest;
              starts = refl;
              part = p;
              behind = ground (arith, before_iff p b.part hb, b.behind);
            })
      | inr more ↦
          rw (other, more)
            (record {
              head = b.head;
              rest = insert_entry new b.rest;
              starts = refl;
              part = b.part;
              behind = b.behind;
            })
    ]
  ])

  -- A socket that expects the byte at offset `n` next, with a blocked buffer.
  pub record Stuck (n : ℕ) (tsk : TcpSock) : Type 0 where
    pub next : tsk.rcv_nxt ≡ add32 base n
    pub small : n < 2 ^ 31
    pub blocked : Blocked n tsk.rcv_ofo_buf

  -- What stays as it is.
  pub record Same (tsk tsk' : TcpSock) : Type 0 where
    pub same_next : tsk'.rcv_nxt ≡ tsk.rcv_nxt
    pub same_ring : tsk'.rcv_buf ≡ tsk.rcv_buf

  move_entries-Blocked :
      {n : ℕ} (es : List RecvOfoBufEntry) (ring : RingBuffer) (nxt wnd : ℕ)
      → base < 2 ^ 32
      → nxt ≡ add32 base n
      → n < 2 ^ 31
      → Blocked n es
      → move_entries es ring nxt wnd 0 ≡ some (moved_to ring nxt wnd 0 es)
  unfolding move_entries
  move_entries-Blocked es ring nxt wnd hb e h b =
      let far : (b.head.seq == nxt) ≡ false =
        ground (arith, e, b.part.numbered, b.behind, b.part.inside) in
      rw (b.starts, far)

  move-Stuck :
      {n : ℕ} (s : Tcp)
      → base < 2 ^ 32
      → Stuck n s.tsk
      → (r : ℕ × Tcp) × (tcp_move_recv_ofo_buffer s ≡ some r) × Same s.tsk r.1.tsk × Stuck n r.1.tsk
  unfolding tcp_move_recv_ofo_buffer store_moved tcp_send_control_packet
  move-Stuck s hb k =
      let run =
        move_entries-Blocked s.tsk.rcv_ofo_buf s.tsk.rcv_buf s.tsk.rcv_nxt s.tsk.rcv_wnd hb k.next
          k.small k.blocked in
      (
        (0, store_moved (moved_to s.tsk.rcv_buf s.tsk.rcv_nxt s.tsk.rcv_wnd 0 s.tsk.rcv_ofo_buf) s),
        rw run,
        record { same_next = refl; same_ring = refl },
        record { next = k.next; small = k.small; blocked = k.blocked },
      )

  add_packet-Stuck :
      {n : ℕ} (cb : TcpCb) (tsk : TcpSock)
      → base < 2 ^ 32
      → IsPart stream base cb.seq cb.payload
      → Stuck n tsk
      → Stuck n (tcp_recv_ofo_buffer_add_packet cb tsk)
        × Same tsk (tcp_recv_ofo_buffer_add_packet cb tsk)
  unfolding tcp_recv_ofo_buffer_add_packet
  add_packet-Stuck {n} cb tsk hb p k =
      elim (Bool-cases (less_or_equal_32b cb.seq_end tsk.rcv_nxt)) [
        | inl old ↦ rw old (k, record { same_next = refl; same_ring = refl })
        | inr new ↦ rw new (
          record {
            next = k.next;
            small = k.small;
            blocked =
                insert-Blocked (record { seq = cb.seq; seq_end = cb.seq_end; packet = cb.payload })
                  tsk.rcv_ofo_buf p k.blocked hb;
          },
          record { same_next = refl; same_ring = refl },
        )
      ]

  stays-Stuck :
      {n : ℕ} (cbs : List TcpCb) (s : Tcp)
      → base < 2 ^ 32
      → AllSegments stream base cbs
      → Stuck n s.tsk
      → (s' : Tcp) × (receive_all cbs s ≡ some s') × Same s.tsk s'.tsk
  unfolding AllSegments receive_all receive_data
  stays-Stuck [] s hb ps k = (s, refl, record { same_next = refl; same_ring = refl })
  stays-Stuck (cb ∷ cbs) s hb (p, ps) k =
      let (k1, same1) = add_packet-Stuck cb s.tsk hb p k in
      let (r, run, same2, k2) =
        move-Stuck (record s { tsk = tcp_recv_ofo_buffer_add_packet cb s.tsk }) hb k1 in
      let (s3, run3, same3) = stays-Stuck cbs r.1 hb ps k2 in
      (
        s3,
        rw (run, run3),
        record {
          same_next = same3.same_next ∙ same2.same_next ∙ same1.same_next;
          same_ring = same3.same_ring ∙ same2.same_ring ∙ same1.same_ring;
        },
      )

  overlap-Stuck :
      {n : ℕ} (cb : TcpCb) (tsk : TcpSock)
      → base < 2 ^ 32
      → tsk.rcv_nxt ≡ add32 base n
      → n < 2 ^ 31
      → AllParts stream base tsk.rcv_ofo_buf
      → (p : IsPart stream base cb.seq cb.payload) → p.offset < n
      → n < p.offset + length cb.payload
      → cb.seq_end ≡ add32 base (p.offset + length cb.payload)
      → Stuck n (tcp_recv_ofo_buffer_add_packet cb tsk)
        × Same tsk (tcp_recv_ofo_buffer_add_packet cb tsk)
  unfolding tcp_recv_ofo_buffer_add_packet
  overlap-Stuck {n} cb tsk hb e h parts p before behind ends =
      let order = (less_than_32b-add32 base (p.offset + length cb.payload) n hb p.inside h).1 in
      let same : less_or_equal_32b cb.seq_end tsk.rcv_nxt
          ≡ less_or_equal_32b (add32 base (p.offset + length cb.payload)) (add32 base n) =
        rw (ends, e) in
      let new : less_or_equal_32b cb.seq_end tsk.rcv_nxt ≡ false = ground (arith, same, order) in
      rw new (
        record {
          next = e;
          small = h;
          blocked =
              insert_behind (record { seq = cb.seq; seq_end = cb.seq_end; packet = cb.payload })
                tsk.rcv_ofo_buf p before parts hb;
        },
        record { same_next = refl; same_ring = refl },
      )

  -- After a segment that starts before the next byte expected and ends behind it, nothing is received
  -- any more: whatever segments of the stream follow, those that fill the gap included, rcv_nxt and
  -- the ring stay as they are.
  pub overlap_blocks :
      (n : ℕ) (cb : TcpCb) (cbs : List TcpCb) (s : Tcp)
      → base < 2 ^ 32
      → s.tsk.rcv_nxt ≡ add32 base n
      → n < 2 ^ 31
      → AllParts stream base s.tsk.rcv_ofo_buf
      → (p : IsPart stream base cb.seq cb.payload) → p.offset < n
      → n < p.offset + length cb.payload
      → cb.seq_end ≡ add32 base (p.offset + length cb.payload)
      → AllSegments stream base cbs
      → (s' : Tcp) × (receive_all (cb ∷ cbs) s ≡ some s') × Same s.tsk s'.tsk
  unfolding receive_all receive_data
  overlap_blocks n cb cbs s hb e h parts p before behind ends ps =
      let (k1, same1) = overlap-Stuck cb s.tsk hb e h parts p before behind ends in
      let (r, run, same2, k2) =
        move-Stuck (record s { tsk = tcp_recv_ofo_buffer_add_packet cb s.tsk }) hb k1 in
      let (s3, run3, same3) = stays-Stuck cbs r.1 hb ps k2 in
      (
        s3,
        rw (run, run3),
        record {
          same_next = same3.same_next ∙ same2.same_next ∙ same1.same_next;
          same_ring = same3.same_ring ∙ same2.same_ring ∙ same1.same_ring;
        },
      )
