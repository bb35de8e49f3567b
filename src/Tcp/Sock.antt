-- ===== src/Tcp/Sock.antt =====
-- The structures of code-exp2: struct tcp_sock and struct tcp_timer (include/tcp_sock.h,
-- include/tcp_timer.h), the states of include/tcp.h, and alloc_tcp_sock of tcp_sock.c.
use Prim.Native.Nat.{bit_and}
use njucn_lab.Common.{ℕ, List, [], Bool, false, not, ◌==◌}
use njucn_lab.Tcp.RingBuffer.{RingBuffer, alloc}
use njucn_lab.Tcp.Wait.{SynchWait, wait_init}

pub data TcpState : Type 0 where
  tcp_closed : TcpState
  tcp_listen : TcpState
  tcp_syn_recv : TcpState
  tcp_syn_sent : TcpState
  tcp_established : TcpState
  tcp_close_wait : TcpState
  tcp_last_ack : TcpState
  tcp_fin_wait_1 : TcpState
  tcp_fin_wait_2 : TcpState
  tcp_closing : TcpState
  tcp_time_wait : TcpState

pub data TcpCcState : Type 0 where
  tcp_slow_start : TcpCcState
  tcp_congestion_avoidance : TcpCcState
  tcp_fast_recover : TcpCcState
  tcp_loss : TcpCcState

abbrev pub tcp_fin : ℕ
tcp_fin = 0x01

abbrev pub tcp_syn : ℕ
tcp_syn = 0x02

abbrev pub tcp_rst : ℕ
tcp_rst = 0x04

abbrev pub tcp_psh : ℕ
tcp_psh = 0x08

abbrev pub tcp_ack : ℕ
tcp_ack = 0x10

-- flags & mask
unfoldable pub has : ℕ → ℕ → Bool
has flags mask = not (bit_and flags mask == 0)

-- ETH_FRAME_LEN less the three headers.
abbrev pub tcp_mss : ℕ
tcp_mss = 1460

abbrev pub tcp_default_window : ℕ
tcp_default_window = 65535

abbrev pub tcp_retrans_interval_initial : ℕ
tcp_retrans_interval_initial = 200000

abbrev pub tcp_timewait_timeout : ℕ
tcp_timewait_timeout = 2000000

pub data TimerType : Type 0 where
  timewait : TimerType
  retrans : TimerType
  persist : TimerType

-- The time left is an int of which only the sign matters below 0: here it stops at 0.
pub record TcpTimer : Type 0 where
  pub timeout : ℕ
  pub enable : Bool
  pub retrans_cnt : ℕ

pub record RecvOfoBufEntry : Type 0 where
  pub seq : ℕ
  pub seq_end : ℕ
  -- `length` bytes
  pub packet : List ℕ

pub record SendBufferEntry : Type 0 where
  pub seq : ℕ
  pub packet : List ℕ

-- Sockets are told apart by a number, which stands for their address. `cwnd` is the pattern of a
-- float's bits.
pub record TcpSock : Type 0 where
  pub sk_sip : ℕ
  pub sk_sport : ℕ
  pub sk_dip : ℕ
  pub sk_dport : ℕ
  pub parent : ℕ
  pub ref_cnt : ℕ
  pub accept_queue : List ℕ
  pub accept_backlog : ℕ
  pub backlog : ℕ
  pub timewait_timer : TcpTimer
  pub retrans_timer : TcpTimer
  pub persist_timer : TcpTimer
  pub wait_connect : SynchWait
  pub wait_accept : SynchWait
  pub wait_recv : SynchWait
  pub wait_send : SynchWait
  pub rcv_buf : RingBuffer
  pub send_buf : List SendBufferEntry
  pub rcv_ofo_buf : List RecvOfoBufEntry
  pub state : TcpState
  pub cc_state : TcpCcState
  pub iss : ℕ
  pub snd_una : ℕ
  pub snd_nxt : ℕ
  pub rcv_nxt : ℕ
  pub recovery_point : ℕ
  pub snd_wnd : ℕ
  pub adv_wnd : ℕ
  pub rcv_wnd : ℕ
  pub cwnd : ℕ
  pub dup_ack_count : ℕ
  pub ssthresh : ℕ

abbrev pub timer_off : TcpTimer
timer_off = record { timeout = 0; enable = false; retrans_cnt = 0 }

unfoldable pub alloc_tcp_sock : TcpSock
alloc_tcp_sock = record {
  sk_sip = 0;
  sk_sport = 0;
  sk_dip = 0;
  sk_dport = 0;
  parent = 0;
  ref_cnt = 0;
  accept_queue = [];
  accept_backlog = 0;
  backlog = 0;
  timewait_timer = timer_off;
  retrans_timer = timer_off;
  persist_timer = timer_off;
  wait_connect = wait_init;
  wait_accept = wait_init;
  wait_recv = wait_init;
  wait_send = wait_init;
  rcv_buf = alloc tcp_default_window;
  send_buf = [];
  rcv_ofo_buf = [];
  state = tcp_closed;
  cc_state = tcp_slow_start;
  iss = 0;
  snd_una = 0;
  snd_nxt = 0;
  rcv_nxt = 0;
  recovery_point = 0;
  snd_wnd = 0;
  adv_wnd = 0;
  rcv_wnd = tcp_default_window;
  cwnd = 0;
  dup_ack_count = 0;
  ssthresh = 0;
}

pub record TcpCb : Type 0 where
  pub saddr : ℕ
  pub daddr : ℕ
  pub sport : ℕ
  pub dport : ℕ
  pub seq : ℕ
  pub seq_end : ℕ
  pub ack : ℕ
  pub rwnd : ℕ
  pub flags : ℕ
  -- `pl_len` bytes
  pub payload : List ℕ

-- What is handed to ip_init_hdr and ip_send_packet: the addresses, and the bytes behind the IP header.
pub record Segment : Type 0 where
  pub from_ip : ℕ
  pub to_ip : ℕ
  pub tcp : List ℕ

-- A socket, its number, the global list of timers, and the segments sent, oldest first.
pub record Tcp : Type 0 where
  pub id : ℕ
  pub tsk : TcpSock
  pub timer_list : List (ℕ × TimerType)
  pub sent : List Segment
