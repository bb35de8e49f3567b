-- ===== src/Tcp/Congestion.antt =====
-- tcp_congestion_control, tcp_update_window and tcp_update_window_safe of code-exp2/tcp_in.c, and
-- tcp_tx_window_test of tcp_sock.c. The machine's floats are a parameter: operations on the patterns
-- of their bits.
use njucn_lab.Common.{ℕ, ◌*◌, Bool, not, ◌&&◌, leb, ltb, if◌then◌else◌}
use njucn_lab.Tcp.Seq.{add32, sub32, less_than_32b, less_or_equal_32b}
use njucn_lab.Tcp.Sock.{
  Tcp, TcpSock, TcpCb, TcpCcState, tcp_slow_start, tcp_congestion_avoidance, tcp_fast_recover,
  tcp_loss, tcp_mss,
}
use njucn_lab.Tcp.Timer.{tcp_set_persist_timer, tcp_unset_persist_timer, wake_send}
use njucn_lab.Tcp.Out.{tcp_retrans_send_buffer}

pub record Float : Type 0 where
  pub of_u32 : ℕ → ℕ
  pub to_u32 : ℕ → ℕ
  pub add : ℕ → ℕ → ℕ
  pub div : ℕ → ℕ → ℕ
  -- a < b
  pub less : ℕ → ℕ → Bool

unfoldable pub tcp_tx_window_test : TcpSock → Bool
tcp_tx_window_test tsk =
    not (less_than_32b (add32 (sub32 tsk.snd_wnd tsk.snd_nxt) tsk.snd_una) tcp_mss)

module _ (fl : Float) where
  abbrev pub add_mss : ℕ → ℕ
  add_mss cwnd = fl.add cwnd (fl.of_u32 tcp_mss)

  -- The chain of tests on cc_state. Sequence numbers are compared as unsigned numbers here.
  unfoldable pub count_ack : TcpCb → TcpCcState → TcpSock → TcpSock
  count_ack cb tcp_fast_recover tsk =
      if leb tsk.recovery_point cb.ack
      then record tsk { cc_state = tcp_slow_start; cwnd = fl.of_u32 tsk.ssthresh }
      else record tsk { cwnd = add_mss tsk.cwnd }
  count_ack cb tcp_slow_start tsk =
      let counted =
        if ltb cb.ack tsk.snd_una
        then record tsk { dup_ack_count = add32 tsk.dup_ack_count 1 }
        else record tsk { cwnd = add_mss tsk.cwnd; dup_ack_count = 0 } in
      if fl.less (fl.of_u32 counted.ssthresh) counted.cwnd
      then record counted { cc_state = tcp_congestion_avoidance }
      else counted
  count_ack cb tcp_congestion_avoidance tsk =
      if ltb tsk.snd_una cb.ack
      then record tsk {
        cwnd = fl.add tsk.cwnd (fl.div (fl.of_u32 (tcp_mss * tcp_mss)) tsk.cwnd);
        dup_ack_count = 0;
      }
      else record tsk { dup_ack_count = add32 tsk.dup_ack_count 1 }
  count_ack cb tcp_loss tsk = tsk

  -- cwnd / 2, cut to a u32.
  abbrev pub half : ℕ → ℕ
  half cwnd = fl.to_u32 (fl.div cwnd (fl.of_u32 2))

  -- The record of the parameters in a file is left out.
  unfoldable pub tcp_congestion_control : TcpCb → Tcp → Tcp
  tcp_congestion_control cb s =
      let tsk = count_ack cb s.tsk.cc_state s.tsk in
      if leb 3 tsk.dup_ack_count
      then (tcp_retrans_send_buffer (record s {
        tsk = record tsk {
          cc_state = tcp_fast_recover;
          ssthresh = half tsk.cwnd;
          cwnd = fl.of_u32 (add32 (half tsk.cwnd) (3 * tcp_mss));
          dup_ack_count = 0;
          recovery_point = tsk.snd_nxt;
        };
      })).1
      else record s { tsk = tsk }

  -- min(cb->rwnd, tsk->cwnd), computed in floats and stored in a u32.
  abbrev pub min_window : ℕ → ℕ → ℕ
  min_window rwnd cwnd = fl.to_u32 (if fl.less (fl.of_u32 rwnd) cwnd then fl.of_u32 rwnd else cwnd)

  unfoldable pub tcp_update_window : TcpCb → Tcp → Tcp
  tcp_update_window cb s =
      let s' = record s {
        tsk = record s.tsk {
          snd_una = cb.ack;
          adv_wnd = cb.rwnd;
          snd_wnd = min_window cb.rwnd s.tsk.cwnd;
        };
      } in
      if tcp_tx_window_test s'.tsk
      then wake_send (tcp_unset_persist_timer s')
      else tcp_set_persist_timer s'

  unfoldable pub tcp_update_window_safe : TcpCb → Tcp → Tcp
  tcp_update_window_safe cb s =
      if less_or_equal_32b s.tsk.snd_una cb.ack && less_or_equal_32b cb.ack s.tsk.snd_nxt
      then tcp_update_window cb s
      else s
