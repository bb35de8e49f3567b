-- ===== src/Tcp/Process.antt =====
-- tcp_process of code-exp2/tcp_in.c: what a segment does to the socket that it is for, by its state.
-- `none` is as in Tcp/Stack, or a failed assertion of the ring.
pub mod Keeps
pub mod Transitions
use Prim.Native.Nat.{bit_or}
use njucn_lab.Common.{
  ℕ, ◌+◌, ◌*◌, ◌^◌, List, [], ◌∷◌, ◌++◌, Option, none, some, ◌>>=◌, Bool, true, false, ◌&&◌, length,
  ltb, ◌==◌, if◌then◌else◌,
}
use njucn_lab.Tcp.Seq.{add32}
use njucn_lab.Tcp.Sock.{
  Tcp, TcpSock, TcpCb, TcpState, tcp_closed, tcp_listen, tcp_syn_recv, tcp_syn_sent,
  tcp_established, tcp_close_wait, tcp_last_ack, tcp_fin_wait_1, tcp_fin_wait_2, tcp_closing,
  tcp_time_wait, tcp_slow_start, tcp_mss, has, tcp_fin, tcp_syn, tcp_ack, alloc_tcp_sock,
}
use njucn_lab.Tcp.Wait.{wake_up}
use njucn_lab.Tcp.Timer.{tcp_unset_retrans_timer, tcp_set_timewait_timer}
use njucn_lab.Tcp.Out.{tcp_send_control_packet, tcp_send_reset, tcp_update_send_buffer}
use njucn_lab.Tcp.Reorder.{receive_data, wake_recv}
use njucn_lab.Tcp.Congestion.{Float, tcp_congestion_control, tcp_update_window_safe}
use njucn_lab.Tcp.Stack.{Stack, sock, on, on_sock, tcp_set_state, tcp_bind_unhash}
use njucn_lab.Tcp.Hashing.{tcp_hash}

abbrev pub expect_seq : TcpCb → Tcp → Tcp
expect_seq cb s = record s { tsk = record s.tsk { rcv_nxt = add32 cb.seq 1 } }

abbrev pub to_state : TcpState → Tcp → Tcp
to_state state s = record s { tsk = tcp_set_state state s.tsk }

abbrev pub send : ℕ → Tcp → Tcp
send flags s = tcp_send_control_packet flags s

abbrev pub acked : TcpCb → Tcp → Tcp
acked cb s = (tcp_update_send_buffer cb.ack s).1

-- The child of a listening socket that a SYN makes; `iss` is what tcp_new_iss gives.
abbrev pub child : ℕ → ℕ → TcpCb → TcpSock
child iss parent cb = record alloc_tcp_sock {
  sk_sip = cb.daddr;
  sk_sport = cb.dport;
  sk_dip = cb.saddr;
  sk_dport = cb.sport;
  iss = iss;
  snd_nxt = iss;
  rcv_nxt = add32 cb.seq 1;
  parent = parent;
  state = tcp_syn_recv;
}

-- tcp_sock_accept_enqueue: the child is not in another queue.
unfoldable pub tcp_sock_accept_enqueue : ℕ → ℕ → Stack → Stack
tcp_sock_accept_enqueue id parent st =
    on_sock parent
      (λ p. record p {
        accept_queue = p.accept_queue ++ (id ∷ []);
        accept_backlog = p.accept_backlog + 1;
      })
      st

abbrev pub wake_accept : TcpSock → TcpSock
wake_accept p = record p { wait_accept = (wake_up p.wait_accept).0 }

unfoldable pub process_listen : ℕ → ℕ → TcpCb → Stack → Option Stack
process_listen iss id cb st =
    if has cb.flags tcp_syn
    then (do
      let new = length st.socks
      (hashed, st') ← tcp_hash new (record st { socks = st.socks ++ (some (child iss id cb) ∷ []) })
      let answered = on new (send (bit_or tcp_syn tcp_ack)) st'
      some (on_sock id wake_accept (tcp_sock_accept_enqueue new id answered)))
    else some st

-- What starts before the next byte expected is answered.
abbrev pub answer_old : TcpCb → Tcp → Tcp
answer_old cb s = if ltb cb.seq s.tsk.rcv_nxt then send tcp_ack s else s

module _ (fl : Float) where
  unfoldable pub process_syn_recv : TcpCb → Tcp → Tcp
  process_syn_recv cb s =
      if has cb.flags tcp_ack
      then wake_recv
          (tcp_unset_retrans_timer (tcp_update_window_safe fl cb (to_state tcp_established s)))
      else s

  abbrev pub slow_start : TcpSock → TcpSock
  slow_start tsk = record tsk {
    cwnd = fl.of_u32 tcp_mss;
    ssthresh = 64 * 1024;
    dup_ack_count = 0;
    cc_state = tcp_slow_start;
  }

  abbrev pub connected : TcpCb → Tcp → Tcp
  connected cb s =
      let s' = send tcp_ack (tcp_unset_retrans_timer (tcp_update_window_safe fl cb (acked cb s))) in
      record s' {
        tsk = record (slow_start s'.tsk) { wait_connect = (wake_up s'.tsk.wait_connect).0 };
      }

  -- The thread that records cwnd in a file is left out.
  unfoldable pub process_syn_sent : ℕ → TcpCb → Stack → Option Stack
  process_syn_sent id cb st =
      if has cb.flags (bit_or tcp_syn tcp_ack)
      then (do
        (hashed, st') ← tcp_hash id (on id (λ s. to_state tcp_established (expect_seq cb s)) st)
        some (on id (connected cb) st'))
      else some (record st { sent = st.sent ++ (tcp_send_reset cb ∷ []) })

  -- A segment without data.
  abbrev pub process_empty : TcpCb → Tcp → Tcp
  process_empty cb s = tcp_update_window_safe fl cb (tcp_congestion_control fl cb (acked cb s))

  unfoldable pub process_established : TcpCb → Tcp → Option Tcp
  process_established cb s =
      let s' = answer_old cb s in
      if has cb.flags tcp_fin
      then some (send tcp_ack (wake_recv (to_state tcp_close_wait (expect_seq cb s))))
      else if has cb.flags tcp_ack
      then if length cb.payload == 0 then some (process_empty cb s') else receive_data cb s'
      else some s

unfoldable pub process_close_wait : TcpCb → Tcp → Tcp
process_close_wait cb s = send (bit_or tcp_ack tcp_fin) (expect_seq cb (to_state tcp_last_ack s))

unfoldable pub process_last_ack : ℕ → TcpCb → Stack → Option Stack
process_last_ack id cb st =
    if has cb.flags (bit_or tcp_ack tcp_fin)
    then tcp_bind_unhash id (on id (λ s. to_state tcp_closed (acked cb s)) st)
    else some st

abbrev pub wait_time : Tcp → Tcp
wait_time s = tcp_set_timewait_timer (to_state tcp_time_wait s)

-- The first test is followed by the second one, and not by an else.
unfoldable pub process_fin_wait_1 : TcpCb → Tcp → Tcp
process_fin_wait_1 cb s =
    let fin = has cb.flags tcp_fin in
    let s' =
      if fin && has cb.flags tcp_ack
      then wait_time (send tcp_ack (acked cb (expect_seq cb s)))
      else s in
    if fin
    then send tcp_ack (to_state tcp_closing s')
    else if has cb.flags tcp_ack
    then to_state tcp_fin_wait_2 s'
    else s'

unfoldable pub process_fin_wait_2 : TcpCb → Tcp → Tcp
process_fin_wait_2 cb s =
    if has cb.flags tcp_fin then wait_time (send tcp_ack (expect_seq cb s)) else s

-- Runs on one socket what may fail.
abbrev pub on_partial : ℕ → (Tcp → Option Tcp) → Stack → Option Stack
on_partial id f st = do
  tsk ← sock st id
  s ← f (record { id = id; tsk = tsk; timer_list = st.timer_list; sent = st.sent })
  some (on id (λ _. s) st)

-- The switch. States that have no case are logged.
unfoldable pub process_state : Float → ℕ → TcpState → ℕ → TcpCb → Stack → Option Stack
process_state fl iss tcp_listen id cb st = process_listen iss id cb st
process_state fl iss tcp_syn_recv id cb st = some (on id (process_syn_recv fl cb) st)
process_state fl iss tcp_syn_sent id cb st = process_syn_sent fl id cb st
process_state fl iss tcp_established id cb st = on_partial id (process_established fl cb) st
process_state fl iss tcp_close_wait id cb st = some (on id (process_close_wait cb) st)
process_state fl iss tcp_last_ack id cb st = process_last_ack id cb st
process_state fl iss tcp_fin_wait_1 id cb st = some (on id (process_fin_wait_1 cb) st)
process_state fl iss tcp_fin_wait_2 id cb st = some (on id (process_fin_wait_2 cb) st)
process_state fl iss tcp_closed id cb st = some st
process_state fl iss tcp_closing id cb st = some st
process_state fl iss tcp_time_wait id cb st = some st

-- Without a socket a reset is sent.
unfoldable pub tcp_process : Float → ℕ → Option ℕ → TcpCb → Stack → Option Stack
tcp_process fl iss none cb st = some (record st { sent = st.sent ++ (tcp_send_reset cb ∷ []) })
tcp_process fl iss (some id) cb st = do tsk ← sock st id; process_state fl iss tsk.state id cb st
