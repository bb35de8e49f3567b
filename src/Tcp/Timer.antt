-- ===== src/Tcp/Timer.antt =====
-- Setting and unsetting timers: code-exp2/tcp_timer.c. A timer is a node of the global list, under the
-- number of its socket and its type.
pub mod Linked
use njucn_lab.Common.{
  ℕ, ◌+◌, ◌-◌, ◌*◌, ◌^◌, List, [], ◌∷◌, ◌++◌, Bool, true, false, ◌==◌, ◌&&◌, if◌then◌else◌,
}
use njucn_lab.Tcp.Sock.{
  Tcp, TcpSock, TcpTimer, TimerType, timewait, retrans, persist, tcp_retrans_interval_initial,
  tcp_timewait_timeout,
}
use njucn_lab.Tcp.Wait.{wake_up}

abbrev pub same_type : TimerType → TimerType → Bool
same_type timewait timewait = true
same_type timewait retrans = false
same_type timewait persist = false
same_type retrans timewait = false
same_type retrans retrans = true
same_type retrans persist = false
same_type persist timewait = false
same_type persist retrans = false
same_type persist persist = true

-- list_delete_entry: the node of the socket's timer leaves the list.
unfoldable pub list_delete_entry : ℕ → TimerType → List (ℕ × TimerType) → List (ℕ × TimerType)
list_delete_entry id type [] = []
list_delete_entry id type (t ∷ ts) =
    if (t.0 == id) && same_type t.1 type then ts else t ∷ list_delete_entry id type ts

unfoldable pub tcp_set_timewait_timer : Tcp → Tcp
tcp_set_timewait_timer s = record s {
  tsk = record s.tsk {
    ref_cnt = s.tsk.ref_cnt + 1;
    timewait_timer = record s.tsk.timewait_timer { timeout = tcp_timewait_timeout; enable = true };
  };
  timer_list = s.timer_list ++ ((s.id, timewait) ∷ []);
}

unfoldable pub tcp_set_persist_timer : Tcp → Tcp
tcp_set_persist_timer s = if s.tsk.persist_timer.enable then s else record s {
  tsk = record s.tsk {
    ref_cnt = s.tsk.ref_cnt + 1;
    persist_timer = record s.tsk.persist_timer {
      timeout = tcp_retrans_interval_initial;
      enable = true;
    };
  };
  timer_list = s.timer_list ++ ((s.id, persist) ∷ []);
}

unfoldable pub tcp_unset_persist_timer : Tcp → Tcp
tcp_unset_persist_timer s =
    if s.tsk.persist_timer.enable
    then record s {
      tsk = record s.tsk {
        ref_cnt = s.tsk.ref_cnt - 1;
        persist_timer = record s.tsk.persist_timer { enable = false };
      };
      timer_list = list_delete_entry s.id persist s.timer_list;
    }
    else s

-- TCP_RETRANS_INTERVAL_INITIAL << retrans_cnt; the count stays below 4.
abbrev pub backed_off : ℕ → ℕ
backed_off cnt = tcp_retrans_interval_initial * 2 ^ cnt

unfoldable pub tcp_set_retrans_timer : Tcp → Tcp
tcp_set_retrans_timer s =
    if s.tsk.retrans_timer.enable
    then record s {
      tsk = record s.tsk {
        retrans_timer = record s.tsk.retrans_timer {
          timeout = backed_off s.tsk.retrans_timer.retrans_cnt;
        };
      };
    }
    else record s {
      tsk = record s.tsk {
        ref_cnt = s.tsk.ref_cnt + 1;
        retrans_timer = record s.tsk.retrans_timer {
          timeout = tcp_retrans_interval_initial;
          enable = true;
        };
      };
      timer_list = s.timer_list ++ ((s.id, retrans) ∷ []);
    }

unfoldable pub tcp_unset_retrans_timer : Tcp → Tcp
tcp_unset_retrans_timer s =
    if s.tsk.retrans_timer.enable
    then record s {
      tsk = record s.tsk {
        ref_cnt = s.tsk.ref_cnt - 1;
        retrans_timer = record s.tsk.retrans_timer { enable = false };
      };
      timer_list = list_delete_entry s.id retrans s.timer_list;
    }
    else s

-- wake_up(tsk->wait_send)
unfoldable pub wake_send : Tcp → Tcp
wake_send s = record s { tsk = record s.tsk { wait_send = (wake_up s.tsk.wait_send).0 } }

unfoldable pub tcp_update_retrans_timer : Tcp → Tcp
tcp_update_retrans_timer s =
    if s.tsk.retrans_timer.enable
    then elim s.tsk.send_buf [
      | [] ↦ wake_send (tcp_unset_retrans_timer s)
      | e ∷ es ↦ record s {
        tsk = record s.tsk {
          retrans_timer = record s.tsk.retrans_timer {
            timeout = tcp_retrans_interval_initial;
            retrans_cnt = 0;
          };
        };
      }
    ]
    else s
