-- ===== src/Tcp/Process/Transitions.antt =====
-- The state machine that tcp_process implements.

use njucn_lab.Common.{ℕ, ◌≡◌, ◌≢◌, inl, inr, refl, ◌∙◌, some, Option-cases, arith, if◌then◌else◌}
use njucn_lab.Tcp.Sock.{
  Tcp, TcpSock, TcpCb, TcpState, tcp_closed, tcp_listen, tcp_syn_recv, tcp_syn_sent,
  tcp_established, tcp_close_wait, tcp_last_ack, tcp_fin_wait_1, tcp_fin_wait_2, tcp_closing,
  tcp_time_wait, has, tcp_fin, tcp_ack,
}
use njucn_lab.Tcp.Congestion.{Float}
use njucn_lab.Tcp.Stack.{Stack, sock}
use njucn_lab.Tcp.Process.{
  process_syn_recv, process_established, process_close_wait, process_fin_wait_1, process_fin_wait_2,
  process_state, tcp_process, to_state, acked, answer_old, process_empty,
}
use njucn_lab.Tcp.Stack.Lookup.{focus, sock-on_self}
use njucn_lab.Tcp.Process.Keeps.{
  update_send_buffer-state, unset_retrans-state, congestion-state, update_window_safe-state,
  receive_data-state,
}
use njucn_lab.Tcp.Out.{tcp_send_control_packet}
use njucn_lab.Tcp.Timer.{tcp_set_timewait_timer}
use njucn_lab.Tcp.Congestion.{tcp_update_window_safe, tcp_congestion_control}

-- The next state of a socket that is neither listening nor waiting for a SYN nor for its last ACK.
-- FIN in FIN_WAIT_1 leads to CLOSING, which nothing leaves, also if it comes with an ACK.
unfoldable pub next_state : TcpState → ℕ → TcpState
next_state tcp_syn_recv flags = if has flags tcp_ack then tcp_established else tcp_syn_recv
next_state tcp_established flags = if has flags tcp_fin then tcp_close_wait else tcp_established
next_state tcp_close_wait flags = tcp_last_ack
next_state tcp_fin_wait_1 flags =
    if has flags tcp_fin
    then tcp_closing
    else if has flags tcp_ack
    then tcp_fin_wait_2
    else tcp_fin_wait_1
next_state tcp_fin_wait_2 flags = if has flags tcp_fin then tcp_time_wait else tcp_fin_wait_2
next_state tcp_closed flags = tcp_closed
next_state tcp_closing flags = tcp_closing
next_state tcp_time_wait flags = tcp_time_wait
next_state tcp_listen flags = tcp_listen
next_state tcp_syn_sent flags = tcp_syn_sent
next_state tcp_last_ack flags = tcp_last_ack

-- The states that a segment takes a socket out of with no work on the tables.
unfoldable pub IsLocal : TcpState → Type 0
IsLocal state = (state ≢ tcp_listen) × (state ≢ tcp_syn_sent) × (state ≢ tcp_last_ack)

syn_recv-state :
    (fl : Float) (cb : TcpCb) (s : Tcp)
    → s.tsk.state ≡ tcp_syn_recv
    → (process_syn_recv fl cb s).tsk.state ≡ next_state tcp_syn_recv cb.flags
unfolding process_syn_recv next_state
syn_recv-state fl cb s h = ground (
  arith,
  unset_retrans-state (tcp_update_window_safe fl cb (to_state tcp_established s)),
  update_window_safe-state fl cb (to_state tcp_established s),
)

answer_old-state : (cb : TcpCb) (s : Tcp) → (answer_old cb s).tsk.state ≡ s.tsk.state
unfolding tcp_send_control_packet
answer_old-state cb s = ground arith

process_empty-state :
    (fl : Float) (cb : TcpCb) (s : Tcp) → (process_empty fl cb s).tsk.state ≡ s.tsk.state
process_empty-state fl cb s =
    update_window_safe-state fl cb (tcp_congestion_control fl cb (acked cb s))
    ∙ congestion-state fl cb (acked cb s)
    ∙ update_send_buffer-state cb.ack s

established-state :
    (fl : Float) (cb : TcpCb) (s s' : Tcp)
    → s.tsk.state ≡ tcp_established
    → process_established fl cb s ≡ some s'
    → s'.tsk.state ≡ next_state tcp_established cb.flags
unfolding process_established next_state tcp_send_control_packet
established-state fl cb s s' h e = ground (
  arith,
  answer_old-state cb s,
  process_empty-state fl cb (answer_old cb s),
  receive_data-state cb (answer_old cb s) s',
)

close_wait-state :
    (cb : TcpCb) (s : Tcp)
    → (process_close_wait cb s).tsk.state ≡ next_state tcp_close_wait cb.flags
unfolding process_close_wait next_state tcp_send_control_packet
close_wait-state cb s = refl

fin_wait_1-state :
    (cb : TcpCb) (s : Tcp)
    → s.tsk.state ≡ tcp_fin_wait_1
    → (process_fin_wait_1 cb s).tsk.state ≡ next_state tcp_fin_wait_1 cb.flags
unfolding process_fin_wait_1 next_state tcp_send_control_packet
fin_wait_1-state cb s h = ground arith

fin_wait_2-state :
    (cb : TcpCb) (s : Tcp)
    → s.tsk.state ≡ tcp_fin_wait_2
    → (process_fin_wait_2 cb s).tsk.state ≡ next_state tcp_fin_wait_2 cb.flags
unfolding process_fin_wait_2 next_state tcp_send_control_packet tcp_set_timewait_timer
fin_wait_2-state cb s h = ground arith

-- The local cases of the switch on one socket.
process_local-state :
    (fl : Float) (iss id : ℕ) (cb : TcpCb) (st st' : Stack) (tsk : TcpSock) (state : TcpState)
    → tsk.state ≡ state
    → sock st id ≡ some tsk
    → IsLocal state
    → process_state fl iss state id cb st ≡ some st'
    → (tsk' : TcpSock) × (sock st' id ≡ some tsk') × (tsk'.state ≡ next_state state cb.flags)
unfolding process_state next_state IsLocal
process_local-state fl iss id cb st st' tsk tcp_closed q h l e = (tsk, ground (arith, e, h), q)
process_local-state fl iss id cb st st' tsk tcp_listen q h l e = absurd (l.0 refl)
process_local-state fl iss id cb st st' tsk tcp_syn_recv q h l e = (
  (process_syn_recv fl cb (focus id tsk st)).tsk,
  ground (arith, e, sock-on_self id (process_syn_recv fl cb) st h),
  syn_recv-state fl cb (focus id tsk st) q,
)
process_local-state fl iss id cb st st' tsk tcp_syn_sent q h l e = absurd (l.1 refl)
process_local-state fl iss id cb st st' tsk tcp_established q h l e =
    elim (Option-cases (process_established fl cb (focus id tsk st))) [
      | inl n ↦ absurd (ground (arith, e, h, n))
      | inr (s, r) ↦ (
        s.tsk,
        ground (arith, e, h, r, sock-on_self id (λ _. s) st h),
        established-state fl cb (focus id tsk st) s q r,
      )
    ]
process_local-state fl iss id cb st st' tsk tcp_close_wait q h l e = (
  (process_close_wait cb (focus id tsk st)).tsk,
  ground (arith, e, sock-on_self id (process_close_wait cb) st h),
  close_wait-state cb (focus id tsk st),
)
process_local-state fl iss id cb st st' tsk tcp_last_ack q h l e = absurd (l.2 refl)
process_local-state fl iss id cb st st' tsk tcp_fin_wait_1 q h l e = (
  (process_fin_wait_1 cb (focus id tsk st)).tsk,
  ground (arith, e, sock-on_self id (process_fin_wait_1 cb) st h),
  fin_wait_1-state cb (focus id tsk st) q,
)
process_local-state fl iss id cb st st' tsk tcp_fin_wait_2 q h l e = (
  (process_fin_wait_2 cb (focus id tsk st)).tsk,
  ground (arith, e, sock-on_self id (process_fin_wait_2 cb) st h),
  fin_wait_2-state cb (focus id tsk st) q,
)
process_local-state fl iss id cb st st' tsk tcp_closing q h l e = (tsk, ground (arith, e, h), q)
process_local-state fl iss id cb st st' tsk tcp_time_wait q h l e = (tsk, ground (arith, e, h), q)

-- A segment for a socket that is connected, closing or closed moves it to the state that next_state
-- gives for its state and the flags, whatever else the segment holds. Not among them are listening
-- sockets, sockets that have sent a SYN, and those that wait for the last ACK.
pub tcp_process-next_state :
    (fl : Float) (iss id : ℕ) (cb : TcpCb) (st st' : Stack) (tsk : TcpSock)
    → sock st id ≡ some tsk
    → IsLocal tsk.state
    → tcp_process fl iss (some id) cb st ≡ some st'
    → (tsk' : TcpSock) × (sock st' id ≡ some tsk') × (tsk'.state ≡ next_state tsk.state cb.flags)
unfolding tcp_process
tcp_process-next_state fl iss id cb st st' tsk h l e =
    process_local-state fl iss id cb st st' tsk tsk.state refl h l (ground (arith, e, h))
