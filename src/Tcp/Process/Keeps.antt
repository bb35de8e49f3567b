-- ===== src/Tcp/Process/Keeps.antt =====
-- What the parts of tcp_process leave alone: the state of the socket, which its cases alone set.
use njucn_lab.Common.{ℕ, ◌≡◌, refl, List, [], ◌∷◌, some, arith}
use njucn_lab.Tcp.Sock.{Tcp, TcpSock, TcpCb, TcpCcState, SendBufferEntry}
use njucn_lab.Tcp.Timer.{
  tcp_unset_retrans_timer, tcp_update_retrans_timer, tcp_set_persist_timer, tcp_unset_persist_timer,
  wake_send,
}
use njucn_lab.Tcp.Out.{
  tcp_send_control_packet, tcp_update_send_buffer, tcp_retrans_send_buffer, unset_if_empty,
  acknowledged,
}
use njucn_lab.Tcp.Reorder.{
  tcp_recv_ofo_buffer_add_packet, tcp_move_recv_ofo_buffer, store_moved, receive_data,
}
use njucn_lab.Tcp.Congestion.{
  Float, count_ack, tcp_congestion_control, tcp_update_window, tcp_update_window_safe,
}

unset-state : (s : Tcp) → (tcp_unset_retrans_timer s).tsk.state ≡ s.tsk.state
unfolding tcp_unset_retrans_timer
unset-state s = ground arith

update_retrans-state : (s : Tcp) → (tcp_update_retrans_timer s).tsk.state ≡ s.tsk.state
unfolding tcp_update_retrans_timer wake_send tcp_unset_retrans_timer
update_retrans-state s = ground arith

unset_if_empty-state :
    (es : List SendBufferEntry) (s : Tcp) → (unset_if_empty es s).tsk.state ≡ s.tsk.state
unset_if_empty-state [] s = unset-state s
unset_if_empty-state (e ∷ es) s = refl

pub update_send_buffer-state :
    (ack : ℕ) (s : Tcp) → (tcp_update_send_buffer ack s).1.tsk.state ≡ s.tsk.state
unfolding tcp_update_send_buffer
update_send_buffer-state ack s = ground (
  arith,
  update_retrans-state (
      unset_if_empty (acknowledged ack s.tsk.send_buf).1
        (record s { tsk = record s.tsk { send_buf = (acknowledged ack s.tsk.send_buf).1 } })),
  unset_if_empty-state (acknowledged ack s.tsk.send_buf).1
      (record s { tsk = record s.tsk { send_buf = (acknowledged ack s.tsk.send_buf).1 } }),
)

pub unset_retrans-state : (s : Tcp) → (tcp_unset_retrans_timer s).tsk.state ≡ s.tsk.state
unset_retrans-state s = unset-state s

retrans-state : (s : Tcp) → (tcp_retrans_send_buffer s).1.tsk.state ≡ s.tsk.state
unfolding tcp_retrans_send_buffer wake_send
retrans-state s = ground arith

module _ (fl : Float) where
  count_ack-state :
      (cb : TcpCb) (c : TcpCcState) (tsk : TcpSock) → (count_ack fl cb c tsk).state ≡ tsk.state
  unfolding count_ack
  count_ack-state cb c tsk = ground arith

  pub congestion-state :
      (cb : TcpCb) (s : Tcp) → (tcp_congestion_control fl cb s).tsk.state ≡ s.tsk.state
  unfolding tcp_congestion_control tcp_retrans_send_buffer wake_send
  congestion-state cb s = ground (arith, count_ack-state cb s.tsk.cc_state s.tsk)

  update_window-state : (cb : TcpCb) (s : Tcp) → (tcp_update_window fl cb s).tsk.state ≡ s.tsk.state
  unfolding tcp_update_window wake_send tcp_unset_persist_timer tcp_set_persist_timer
  update_window-state cb s = ground arith

  pub update_window_safe-state :
      (cb : TcpCb) (s : Tcp) → (tcp_update_window_safe fl cb s).tsk.state ≡ s.tsk.state
  unfolding tcp_update_window_safe
  update_window_safe-state cb s = ground (arith, update_window-state cb s)

pub receive_data-state :
    (cb : TcpCb) (s s' : Tcp) → receive_data cb s ≡ some s' → s'.tsk.state ≡ s.tsk.state
unfolding receive_data tcp_move_recv_ofo_buffer store_moved tcp_send_control_packet
    tcp_recv_ofo_buffer_add_packet
receive_data-state cb s s' h = ground arith
