-- ===== src/Tcp/Reorder.antt =====
-- The buffer of segments out of order: tcp_recv_ofo_buffer_add_packet and tcp_move_recv_ofo_buffer of
-- code-exp2/tcp_in.c.
pub mod Stream
pub mod Arrivals
pub mod Stuck
pub mod Cuts
pub mod Moves
pub mod Delivery
use njucn_lab.Common.{
  ℕ, ◌+◌, ◌-◌, ◌^◌, ◌%◌, List, [], ◌∷◌, ◌++◌, Option, none, some, ◌>>=◌, Bool, true, false, length,
  ltb, not, ◌==◌, if◌then◌else◌,
}
use njucn_lab.Tcp.RingBuffer.{RingBuffer, free, write}
use njucn_lab.Tcp.Seq.{add32, less_than_32b, less_or_equal_32b}
use njucn_lab.Tcp.Sock.{Tcp, TcpSock, TcpCb, RecvOfoBufEntry, tcp_ack}
use njucn_lab.Tcp.Wait.{wake_up}
use njucn_lab.Tcp.Out.{tcp_send_control_packet}

-- The loop that looks for the place of a new entry. It leaves the list as it is if one of the same
-- sequence number is there.
unfoldable pub insert_entry : RecvOfoBufEntry → List RecvOfoBufEntry → List RecvOfoBufEntry
insert_entry new [] = new ∷ []
insert_entry new (e ∷ es) =
    let rest = insert_entry new es in
    if new.seq == e.seq
    then e ∷ es
    else if less_than_32b new.seq e.seq
    then new ∷ e ∷ es
    else e ∷ rest

-- What ends before the next byte expected is dropped.
unfoldable pub tcp_recv_ofo_buffer_add_packet : TcpCb → TcpSock → TcpSock
tcp_recv_ofo_buffer_add_packet cb tsk =
    if less_or_equal_32b cb.seq_end tsk.rcv_nxt then tsk else record tsk {
      rcv_ofo_buf =
          insert_entry (record { seq = cb.seq; seq_end = cb.seq_end; packet = cb.payload })
            tsk.rcv_ofo_buf;
    }

-- The state of the loop in tcp_move_recv_ofo_buffer.
pub record Moved : Type 0 where
  pub ring : RingBuffer
  pub rcv_nxt : ℕ
  pub rcv_wnd : ℕ
  pub moved : ℕ
  pub left : List RecvOfoBufEntry

abbrev pub moved_to : RingBuffer → ℕ → ℕ → ℕ → List RecvOfoBufEntry → Moved
moved_to ring nxt wnd moved left = record {
  ring = ring;
  rcv_nxt = nxt;
  rcv_wnd = wnd;
  moved = moved;
  left = left;
}

-- An entry that is next and has room goes into the ring; the first other one ends the loop. `none` is
-- a failed assertion in write_ring_buffer.
unfoldable pub move_entries : List RecvOfoBufEntry → RingBuffer → ℕ → ℕ → ℕ → Option Moved
move_entries [] ring nxt wnd moved = some (moved_to ring nxt wnd moved [])
move_entries (e ∷ es) ring nxt wnd moved =
    let len = length e.packet in
    let stop = some (moved_to ring nxt wnd moved (e ∷ es)) in
    let next = write ring e.packet >>= λ ring'.
    move_entries es ring' (add32 nxt len) ((wnd + (2 ^ 16 - len % 2 ^ 16)) % 2 ^ 16)
      (moved + len) in
    if not (e.seq == nxt) then stop else if ltb (free ring) len then stop else next

abbrev pub wake_recv : Tcp → Tcp
wake_recv s = record s { tsk = record s.tsk { wait_recv = (wake_up s.tsk.wait_recv).0 } }

-- What the loop has changed is stored, an ACK is sent, and readers are woken up if bytes were moved.
unfoldable pub store_moved : Moved → Tcp → Tcp
store_moved m s =
    let s' = tcp_send_control_packet tcp_ack (record s {
      tsk = record s.tsk {
        rcv_buf = m.ring;
        rcv_nxt = m.rcv_nxt;
        rcv_wnd = m.rcv_wnd;
        rcv_ofo_buf = m.left;
      };
    }) in
    if m.moved == 0 then s' else wake_recv s'

-- With the number of bytes that were moved.
unfoldable pub tcp_move_recv_ofo_buffer : Tcp → Option (ℕ × Tcp)
tcp_move_recv_ofo_buffer s =
    move_entries s.tsk.rcv_ofo_buf s.tsk.rcv_buf s.tsk.rcv_nxt s.tsk.rcv_wnd 0 >>= λ m.
    some (m.moved, store_moved m s)

-- What a segment with data does to a connected socket, under the lock of its ring.
unfoldable pub receive_data : TcpCb → Tcp → Option Tcp
receive_data cb s =
    tcp_move_recv_ofo_buffer (record s { tsk = tcp_recv_ofo_buffer_add_packet cb s.tsk }) >>= λ r.
    some r.1
