-- ===== src/Tcp/Reorder/Arrivals.antt =====
-- Segments of a stream that arrive one after the other.
use njucn_lab.Common.{
  ℕ, ◌+◌, ◌^◌, ◌<◌, ◌≡◌, refl, sym, ap, ◌∙◌, List, [], ◌∷◌, ◌++◌, append-nil, append_assoc, Option,
  some, ◌>>=◌, Bool-cases, ◌==◌, arith, inl, inr,
}
use njucn_lab.Tcp.RingBuffer.Inv.{IsValid}
use njucn_lab.Tcp.RingBuffer.Cells.{contents}
use njucn_lab.Tcp.Seq.{add32}
use njucn_lab.Tcp.Sock.{Tcp, TcpSock, TcpCb}
use njucn_lab.Tcp.Out.{tcp_send_control_packet}
use njucn_lab.Tcp.Reorder.{
  Moved, tcp_recv_ofo_buffer_add_packet, tcp_move_recv_ofo_buffer, store_moved, receive_data,
}
use njucn_lab.Tcp.Reorder.Stream.{
  IsPart, AllParts, Stopped, Delivered, bytes, bytes-add, insert_entry-AllParts,
  move_entries-Delivered,
}

unfoldable pub receive_all : List TcpCb → Tcp → Option Tcp
receive_all [] s = some s
receive_all (cb ∷ cbs) s = receive_data cb s >>= λ s'. receive_all cbs s'

module _ (stream : ℕ → ℕ) (base : ℕ) where
  -- The next byte expected is that at offset `n`, and what waits are parts of the stream.
  pub record Receiving (n : ℕ) (tsk : TcpSock) : Type 0 where
    pub next : tsk.rcv_nxt ≡ add32 base n
    pub small : n < 2 ^ 31
    pub ring : IsValid tsk.rcv_buf
    pub waiting : AllParts stream base tsk.rcv_ofo_buf

  unfoldable pub AllSegments : List TcpCb → Type 0
  AllSegments [] = Unit
  AllSegments (cb ∷ cbs) = IsPart stream base cb.seq cb.payload × AllSegments cbs

  -- The socket got the `k` bytes from offset `n` on, behind what was in the ring.
  pub record Grown (n : ℕ) (tsk tsk' : TcpSock) : Type 0 where
    pub count : ℕ
    pub received : contents tsk'.rcv_buf ≡ contents tsk.rcv_buf ++ bytes stream n count
    pub goes_on : Receiving (n + count) tsk'
    -- Nothing that could be moved was left.
    pub halted : Stopped tsk'.rcv_nxt tsk'.rcv_buf tsk'.rcv_ofo_buf

  add_packet-Receiving :
      {n : ℕ} (cb : TcpCb) (tsk : TcpSock)
      → IsPart stream base cb.seq cb.payload
      → Receiving n tsk
      → Receiving n (tcp_recv_ofo_buffer_add_packet cb tsk)
        × ((tcp_recv_ofo_buffer_add_packet cb tsk).rcv_buf ≡ tsk.rcv_buf)
  unfolding tcp_recv_ofo_buffer_add_packet
  add_packet-Receiving cb tsk p r = ground (
    arith,
    insert_entry-AllParts stream base
        (record { seq = cb.seq; seq_end = cb.seq_end; packet = cb.payload }) tsk.rcv_ofo_buf p
        r.waiting,
  )

  store_moved-Grown :
      {n : ℕ} {m : Moved} (s : Tcp)
      → Delivered stream base n s.tsk.rcv_buf 0 m
      → Grown n s.tsk (store_moved m s).tsk
  unfolding store_moved tcp_send_control_packet
  store_moved-Grown {m = m} s d = elim (Bool-cases (m.moved == 0)) [
    | inl e ↦ rw e (record {
      count = d.count;
      received = d.filled;
      goes_on = record { next = d.next; small = d.small; ring = d.valid; waiting = d.parts };
      halted = d.stopped;
    })
    | inr e ↦ rw e (record {
      count = d.count;
      received = d.filled;
      goes_on = record { next = d.next; small = d.small; ring = d.valid; waiting = d.parts };
      halted = d.stopped;
    })
  ]

  receive_data-Grown :
      {n : ℕ} (cb : TcpCb) (s : Tcp)
      → base < 2 ^ 32
      → IsPart stream base cb.seq cb.payload
      → Receiving n s.tsk
      → (s' : Tcp) × (receive_data cb s ≡ some s') × Grown n s.tsk s'.tsk
  unfolding receive_data tcp_move_recv_ofo_buffer
  receive_data-Grown {n} cb s hb p r =
      let tsk = tcp_recv_ofo_buffer_add_packet cb s.tsk in
      let (v, same) = add_packet-Receiving cb s.tsk p r in
      let (m, run, d) =
        move_entries-Delivered stream base tsk.rcv_ofo_buf tsk.rcv_buf n tsk.rcv_nxt tsk.rcv_wnd 0
          hb v.next v.small v.ring v.waiting in
      let g = store_moved-Grown (record s { tsk = tsk }) d in
      (
        store_moved m (record s { tsk = tsk }),
        rw run,
        record {
          count = g.count;
          received = g.received ∙ ap (λ q. contents q ++ bytes stream n g.count) same;
          goes_on = g.goes_on;
          halted = g.halted;
        },
      )

  -- Whatever segments of a stream arrive, in whatever order and however often, none of them makes the
  -- receiver fail, and what they add to the ring is the next bytes of the stream, in order and
  -- without gap or repetition; rcv_nxt goes forward by their number. Nothing is held back: if any
  -- segment waits at the end, the first one is not next or has no room in the ring, given that this
  -- was so at the start. The segments hold at least one byte each, and lie within the first 2^31
  -- bytes of the stream, which may start at any sequence number.
  pub receive_all-Grown :
      (n : ℕ) (cbs : List TcpCb) (s : Tcp)
      → base < 2 ^ 32
      → AllSegments cbs
      → Receiving n s.tsk
      → Stopped s.tsk.rcv_nxt s.tsk.rcv_buf s.tsk.rcv_ofo_buf
      → (s' : Tcp) × (receive_all cbs s ≡ some s') × Grown n s.tsk s'.tsk
  unfolding AllSegments receive_all bytes
  receive_all-Grown n [] s hb ps r st = (
    s,
    refl,
    record {
      count = 0;
      received = sym (append-nil (contents s.tsk.rcv_buf));
      goes_on = record {
        next = r.next ∙ ap (add32 base) (let q : n ≡ n + 0 = omega arith in q);
        small = omega (arith, r.small);
        ring = r.ring;
        waiting = r.waiting;
      };
      halted = st;
    },
  )
  receive_all-Grown n (cb ∷ cbs) s hb (p, ps) r st =
      let (s1, run1, g1) = receive_data-Grown cb s hb p r in
      let (s2, run2, g2) = receive_all-Grown (n + g1.count) cbs s1 hb ps g1.goes_on g1.halted in
      let sum : n + g1.count + g2.count ≡ n + (g1.count + g2.count) = omega arith in
      (
        s2,
        rw (run1, run2),
        record {
          count = g1.count + g2.count;
          received =
              g2.received
              ∙ ap (λ c. c ++ bytes stream (n + g1.count) g2.count) g1.received
              ∙ append_assoc (contents s.tsk.rcv_buf) (bytes stream n g1.count)
                  (bytes stream (n + g1.count) g2.count)
              ∙ ap (λ b. contents s.tsk.rcv_buf ++ b) (sym (bytes-add stream n g1.count g2.count));
          goes_on = record {
            next = g2.goes_on.next ∙ ap (add32 base) sum;
            small = omega (arith, g2.goes_on.small);
            ring = g2.goes_on.ring;
            waiting = g2.goes_on.waiting;
          };
          halted = g2.halted;
        },
      )
