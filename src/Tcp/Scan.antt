-- ===== src/Tcp/Scan.antt =====
-- tcp_scan_timer_list of code-exp2/tcp_timer.c.
use njucn_lab.Common.{
  ℕ, ◌+◌, ◌-◌, List, [], ◌∷◌, Option, some, ◌>>=◌, Bool, true, false, leb, ◌==◌, if◌then◌else◌,
}
use njucn_lab.Tcp.Sock.{
  Tcp, TcpSock, TcpTimer, TcpState, TimerType, timewait, retrans, persist, tcp_closed,
  tcp_slow_start, tcp_mss, tcp_retrans_interval_initial,
}
use njucn_lab.Tcp.Wait.{SynchWait, wait_exit}
use njucn_lab.Tcp.Timer.{list_delete_entry, backed_off, tcp_unset_retrans_timer}
use njucn_lab.Tcp.Out.{tcp_send_probe_packet, tcp_retrans_send_buffer}
use njucn_lab.Tcp.Congestion.{Float, half}
use njucn_lab.Tcp.Stack.{Stack, sock, on, on_sock, tcp_set_state, free_tcp_sock, tcp_bind_unhash}
use njucn_lab.Tcp.Api.{tcp_sock_close}

abbrev pub tcp_timer_scan_interval : ℕ
tcp_timer_scan_interval = 100000

abbrev pub timer_of : TimerType → TcpSock → TcpTimer
timer_of timewait tsk = tsk.timewait_timer
timer_of retrans tsk = tsk.retrans_timer
timer_of persist tsk = tsk.persist_timer

abbrev pub set_timer : TimerType → TcpTimer → TcpSock → TcpSock
set_timer timewait t tsk = record tsk { timewait_timer = t }
set_timer retrans t tsk = record tsk { retrans_timer = t }
set_timer persist t tsk = record tsk { persist_timer = t }

abbrev pub dead : SynchWait → SynchWait
dead w = (wait_exit w).0

abbrev pub exit_all : TcpSock → TcpSock
exit_all tsk = record tsk {
  wait_connect = dead tsk.wait_connect;
  wait_accept = dead tsk.wait_accept;
  wait_recv = dead tsk.wait_recv;
  wait_send = dead tsk.wait_send;
}

abbrev is_closed : TcpState → Bool
is_closed tcp_closed = true
is_closed _ = false

-- After three retransmissions. tcp_unset_retrans_timer takes the node out of the list, so that the
-- deletion which follows it changes nothing. A socket that tcp_bind_unhash frees is used after that.
unfoldable pub give_up : ℕ → Stack → Option Stack
give_up id st = do
  st' ← tcp_bind_unhash id (on id tcp_unset_retrans_timer st)
  tsk ← sock st' id
  some (free_tcp_sock id (on_sock id (λ tsk. tcp_set_state tcp_closed (exit_all tsk)) st'))

module _ (fl : Float) where
  unfoldable pub retransmit : Tcp → Tcp
  retransmit s =
      let cnt = s.tsk.retrans_timer.retrans_cnt + 1 in
      (tcp_retrans_send_buffer (record s {
        tsk = record s.tsk {
          retrans_timer = record s.tsk.retrans_timer {
            retrans_cnt = cnt;
            timeout = backed_off cnt;
          };
          ssthresh = half fl s.tsk.cwnd;
          cwnd = fl.of_u32 tcp_mss;
          dup_ack_count = 0;
          cc_state = tcp_slow_start;
        };
      })).1

  unfoldable pub probe : Tcp → Tcp
  probe s =
      let s' = tcp_send_probe_packet s in
      record s' {
        tsk = record s'.tsk {
          persist_timer = record s'.tsk.persist_timer { timeout = tcp_retrans_interval_initial };
        };
      }

  -- The timers of a closed socket, and the time-wait timer of any.
  unfoldable pub release : ℕ → TimerType → Stack → Option Stack
  release id type st =
      let st' =
        on id
          (λ s. record s {
            tsk =
                tcp_set_state tcp_closed
                  (set_timer type (record (timer_of type s.tsk) { enable = false }) s.tsk);
            timer_list = list_delete_entry s.id type s.timer_list;
          })
          st in
      tcp_sock_close id st'

  unfoldable pub expired : ℕ → TimerType → TcpSock → Stack → Option Stack
  expired id type tsk st = if is_closed tsk.state then release id type st else elim type [
    | timewait ↦ release id timewait st
    | persist ↦ some (on id probe st)
    | retrans ↦
        if leb 3 tsk.retrans_timer.retrans_cnt then give_up id st else some (on id retransmit st)
  ]

  -- A timer of the list: the time since the last scan is taken off, and it expires at 0.
  unfoldable pub scan_timer : ℕ × TimerType → Stack → Option Stack
  scan_timer t st = do
    tsk ← sock st t.0
    let timer = timer_of t.1 tsk
    let timeout = timer.timeout - tcp_timer_scan_interval
    let counted = set_timer t.1 (record timer { timeout = timeout }) tsk
    let st' = on_sock t.0 (λ _. counted) st
    (if timer.enable
        then if timeout == 0 then expired t.0 t.1 counted st' else some st'
        else some st)

  -- The list is read before its nodes are handled, as the safe iteration does by one node.
  unfoldable pub scan_timers : List (ℕ × TimerType) → Stack → Option Stack
  scan_timers [] st = some st
  scan_timers (t ∷ ts) st = do st' ← scan_timer t st; scan_timers ts st'

  unfoldable pub tcp_scan_timer_list : Stack → Option Stack
  tcp_scan_timer_list st = scan_timers st.timer_list st
