-- ===== src/Tcp/Reorder/Delivery.antt =====
-- Segments of a stream that arrive in any order: what is delivered, and what still waits.
use mathlib.Core.List.{Memᴰ}
use mathlib.Core.List.Memᴰ.{head, cases_cons}
use native.Mathlib.Decide.{dec_le}
use njucn_lab.Common.{
  ℕ, suc, ◌-◌, ◌≤◌, ◌<◌, ◌≡◌, ◌⊎◌, inl, inr, refl, sym, ap, ◌∙◌, subst, List, [], ◌∷◌, ◌++◌,
  append_assoc, map, some, true, false, Bool-cases, arith,
}
use njucn_lab.Tcp.RingBuffer.{RingBuffer, free}
use njucn_lab.Tcp.RingBuffer.Cells.{contents}
use njucn_lab.Tcp.Seq.{add32, less_or_equal_32b}
use njucn_lab.Tcp.Seq.Order.{less_than_32b-add32}
use njucn_lab.Tcp.Sock.{Tcp, TcpSock, TcpCb, RecvOfoBufEntry}
use njucn_lab.Tcp.Reorder.{
  Moved, move_entries, tcp_recv_ofo_buffer_add_packet, tcp_move_recv_ofo_buffer, store_moved,
  receive_data,
}
use njucn_lab.Tcp.Reorder.Stream.{bytes}
use njucn_lab.Tcp.Reorder.Arrivals.{receive_all}
use njucn_lab.Tcp.Reorder.Cuts.{
  IsCut, insert_place, insert_place-Rising, insert_place-member, insert_place-keeps, size, entry,
  cut_le, cut_lt, cut_small, insert_entry-place,
}
use njucn_lab.Tcp.Reorder.Moves.{Holds, Goes, stays, bytes-join, store_moved-tsk, move_entries-Goes}

receive_data-run :
    (cb : TcpCb) (s : Tcp) (m : Moved)
    → let tsk = tcp_recv_ofo_buffer_add_packet cb s.tsk in
      move_entries tsk.rcv_ofo_buf tsk.rcv_buf tsk.rcv_nxt tsk.rcv_wnd 0 ≡ some m
      → receive_data cb s ≡ some (store_moved m (record s { tsk = tsk }))
unfolding receive_data tcp_move_recv_ofo_buffer
receive_data-run cb s m e = rw e refl

module _ (stream : ℕ → ℕ) (base : ℕ) (cut : ℕ → ℕ) (total : ℕ) where
  module _ (c : IsCut base cut total) where
    -- The segment at a place.
    pub record IsSegment (i : ℕ) (cb : TcpCb) : Type 0 where
      pub inside : i < total
      pub starts : cb.seq ≡ add32 base (cut i)
      pub ends : cb.seq_end ≡ add32 base (cut (suc i))
      pub payload : cb.payload ≡ bytes stream (cut i) (size stream base cut i)

    abbrev pub AreSegments : List ℕ → List TcpCb → Type 0
    AreSegments [] [] = Unit {0}
    AreSegments [] (cb ∷ cbs) = ⊥
    AreSegments (i ∷ is) [] = ⊥
    AreSegments (i ∷ is) (cb ∷ cbs) = IsSegment i cb × AreSegments is cbs

    abbrev pub At : ℕ → List ℕ → TcpSock → Type 0
    At j js tsk = Holds stream base cut total j js tsk.rcv_buf tsk.rcv_nxt tsk.rcv_ofo_buf

    add_packet-At :
        (i j : ℕ) (js : List ℕ) (cb : TcpCb) (tsk : TcpSock)
        → IsSegment i cb
        → At j js tsk
        → let tsk' = tcp_recv_ofo_buffer_add_packet cb tsk in
          (js' : List ℕ) × At j js' tsk'
          × ((i < j) ⊎ Memᴰ i js')
          × ((k : ℕ) → Memᴰ k js → Memᴰ k js')
          × (tsk'.rcv_buf ≡ tsk.rcv_buf)
    unfolding tcp_recv_ofo_buffer_add_packet
    add_packet-At i j js cb tsk g h =
        let o =
          (less_than_32b-add32 base (cut (suc i)) (cut j) c.numbered
            (cut_small stream base cut total c (suc i) (omega (arith, g.inside)))
            (cut_small stream base cut total c j h.inside)).1 in
        elim (dec_le (suc i) j) [
          | yes l ↦
              let old : less_or_equal_32b cb.seq_end tsk.rcv_nxt ≡ true =
                rw (g.ends, h.next) (o.1 (cut_le stream base cut total c (suc i) j l h.inside)) in
              rw (tcp_recv_ofo_buffer_add_packet, old) (js, h, inl l, (λ k m. m), refl)
          | no l ↦
              let after =
                cut_lt stream base cut total c j (suc i) (omega (arith, l))
                  (omega (arith, g.inside)) in
              let new : less_or_equal_32b cb.seq_end tsk.rcv_nxt ≡ false =
                rw (g.ends, h.next)
                  (elim (Bool-cases
                    (less_or_equal_32b (add32 base (cut (suc i))) (add32 base (cut j)))) [
                      | inl t ↦ absurd (omega (arith, o.0 t, after))
                      | inr t ↦ t
                    ]) in
              rw (tcp_recv_ofo_buffer_add_packet, new)
                (
                  insert_place i js,
                  record {
                    inside = h.inside;
                    next = h.next;
                    valid = h.valid;
                    entries =
                        rw (g.starts, g.ends, g.payload, h.entries)
                          (insert_entry-place stream base cut total c i js j g.inside h.ordered);
                    ordered =
                        insert_place-Rising total j i js (omega (arith, l)) g.inside h.ordered;
                  },
                  inr (insert_place-member i js),
                  (λ k m. insert_place-keeps i k js m),
                  refl,
                )
        ]

    receive_data-Goes :
        (i j : ℕ) (js : List ℕ) (cb : TcpCb) (s : Tcp)
        → IsSegment i cb
        → At j js s.tsk
        → (s' : Tcp) × (receive_data cb s ≡ some s')
          × Goes stream base cut total j
              (i ∷ [])
              js
              s.tsk.rcv_buf
              s'.tsk.rcv_buf
              s'.tsk.rcv_nxt
              s'.tsk.rcv_ofo_buf
    unfolding receive_data tcp_move_recv_ofo_buffer
    receive_data-Goes i j js cb s g h =
        let (js', h', here, keeps, same) = add_packet-At i j js cb s.tsk g h in
        let tsk = tcp_recv_ofo_buffer_add_packet cb s.tsk in
        let start : Holds stream base cut total j js' tsk.rcv_buf tsk.rcv_nxt
            (map (entry stream base cut) js') =
          subst (Holds stream base cut total j js' tsk.rcv_buf tsk.rcv_nxt) h'.entries h' in
        let (m, run, a) =
          move_entries-Goes stream base cut total c js' j tsk.rcv_buf tsk.rcv_nxt tsk.rcv_wnd 0
            start in
        let (e1, e2, e3) = store_moved-tsk m (record s { tsk = tsk }) in
        (
          store_moved m (record s { tsk = tsk }),
          receive_data-run cb s m
              (ap (λ es. move_entries es tsk.rcv_buf tsk.rcv_nxt tsk.rcv_wnd 0) h'.entries ∙ run),
          rw (e1, e2, e3)
              (record {
                place = a.place;
                left = a.left;
                forward = a.forward;
                holds = a.holds;
                filled =
                    a.filled
                    ∙ ap (λ q. contents q ++ bytes stream (cut j) (cut a.place - cut j)) same;
                arrived = λ k mem. elim (cases_cons mem) [
                  | inr none' ↦ elim none' [ ]
                  | inl q ↦ elim here [
                    | inl l ↦ inl (omega (arith, l, q, a.forward))
                    | inr in' ↦ a.kept k (subst (λ x. Memᴰ x js') (sym q) in')
                  ]
                ];
                kept = λ k mem. a.kept k (keeps k mem);
                blocked = a.blocked;
              }),
        )

    Goes-trans :
        {i j nxt1 nxt2 : ℕ} {is js : List ℕ} {ring ring1 ring2 : RingBuffer}
        {es1 es2 : List RecvOfoBufEntry}
        (a : Goes stream base cut total j (i ∷ []) js ring ring1 nxt1 es1)
        → Goes stream base cut total a.place is a.left ring1 ring2 nxt2 es2
        → Goes stream base cut total j (i ∷ is) js ring ring2 nxt2 es2
    Goes-trans {j = j} {ring = ring} a b = record {
      place = b.place;
      left = b.left;
      forward = omega (arith, a.forward, b.forward);
      holds = b.holds;
      filled =
          b.filled
          ∙ ap (λ x. x ++ bytes stream (cut a.place) (cut b.place - cut a.place)) a.filled
          ∙ append_assoc (contents ring) _ _
          ∙ ap (λ x. contents ring ++ x)
              (bytes-join stream (cut j) (cut a.place) (cut b.place)
                (cut_le stream base cut total c j a.place a.forward a.holds.inside)
                (cut_le stream base cut total c a.place b.place b.forward b.holds.inside));
      arrived = λ k m. elim (cases_cons m) [
        | inl q ↦ later k (a.arrived k (head q))
        | inr m' ↦ b.arrived k m'
      ];
      kept = λ k m. later k (a.kept k m);
      blocked = b.blocked;
    }
      where
        later : (k : ℕ) → (k < a.place) ⊎ Memᴰ k a.left → (k < b.place) ⊎ Memᴰ k b.left
        later k (inl l) = inl (omega (arith, l, b.forward))
        later k (inr m) = b.kept k m

    receive_all-Goes :
        (is : List ℕ) (cbs : List TcpCb) (j : ℕ) (js : List ℕ) (s : Tcp)
        → AreSegments is cbs
        → At j js s.tsk
        → (Memᴰ j js → free s.tsk.rcv_buf < size stream base cut j)
        → (s' : Tcp) × (receive_all cbs s ≡ some s')
          × Goes stream base cut total j is js s.tsk.rcv_buf s'.tsk.rcv_buf s'.tsk.rcv_nxt
              s'.tsk.rcv_ofo_buf
    unfolding receive_all
    receive_all-Goes [] [] j js s g h b = (s, refl, stays stream base cut total h b)
    receive_all-Goes (i ∷ is) (cb ∷ cbs) j js s (g, gs) h b =
        let (s1, run1, a) = receive_data-Goes i j js cb s g h in
        let (s2, run2, a2) = receive_all-Goes is cbs a.place a.left s1 gs a.holds a.blocked in
        (s2, rw (run1, run2) refl, Goes-trans a a2)
    receive_all-Goes [] (cb ∷ cbs) j js s g h b = absurd g
    receive_all-Goes (i ∷ is) [] j js s g h b = absurd g

    -- A stream is cut into segments, which may start at any sequence number and lie within 2^31 bytes. When
    -- segments of it arrive in any order and any number of times, at a socket that has all before one place
    -- and where none waits, then the receiver does not fail, and the reader gets the bytes from that place
    -- up to another one, in order. No segment that arrived is lost: it lies before that place and was
    -- delivered, or waits for what is missing. The one that is next either has not arrived, or there is no
    -- room for it in the ring.
    pub receive_all_lem :
        (is : List ℕ) (cbs : List TcpCb) (j : ℕ) (s : Tcp)
        → AreSegments is cbs
        → At j [] s.tsk
        → (s' : Tcp) × (p : ℕ) × (js : List ℕ) × (receive_all cbs s ≡ some s')
          × (j ≤ p)
          × (contents s'.tsk.rcv_buf
              ≡ contents s.tsk.rcv_buf ++ bytes stream (cut j) (cut p - cut j))
          × At p js s'.tsk
          × ((k : ℕ) → Memᴰ k is → (k < p) ⊎ Memᴰ k js)
          × (Memᴰ p is → free s'.tsk.rcv_buf < size stream base cut p)
    receive_all_lem is cbs j s g h =
        let (s', run, a) = receive_all-Goes is cbs j [] s g h (λ m. elim m [ ]) in
        (
          s',
          a.place,
          a.left,
          run,
          a.forward,
          a.filled,
          a.holds,
          a.arrived,
          λ m. elim (a.arrived a.place m) [
            | inl l ↦ absurd (omega (arith, l))
            | inr w ↦ a.blocked w
          ],
        )
