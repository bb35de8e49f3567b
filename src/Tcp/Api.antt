-- ===== src/Tcp/Api.antt =====
-- The calls of applications in code-exp2/tcp_sock.c: bind, listen, connect, accept, close, read and
-- write. A call that sleeps is cut in two where it does.
pub mod Listen
pub mod Write
use Prim.Native.Nat.{bit_or}
use njucn_lab.Common.{
  ℕ, zero, suc, ◌+◌, ◌-◌, ◌^◌, ◌%◌, min, List, [], ◌∷◌, ◌++◌, Option, none, some, ◌>>=◌, Bool, true,
  false, length, take, drop, leb, ltb, ◌==◌, if◌then◌else◌,
}
use njucn_lab.Tcp.RingBuffer.{used, read}
use njucn_lab.Tcp.Sock.{
  Tcp, TcpSock, TcpState, tcp_closed, tcp_listen, tcp_syn_recv, tcp_syn_sent, tcp_established,
  tcp_close_wait, tcp_last_ack, tcp_fin_wait_1, tcp_fin_wait_2, tcp_closing, tcp_time_wait, tcp_fin,
  tcp_syn, tcp_ack, tcp_mss,
}
use njucn_lab.Tcp.Out.{tcp_send_control_packet, tcp_send_packet, tcp_send_buffer_add_packet}
use njucn_lab.Tcp.Congestion.{tcp_tx_window_test}
use njucn_lab.Tcp.Wait.{sleep_on, resumed}
use njucn_lab.Tcp.Stack.{
  Stack, sock, on, on_sock, tcp_set_state, tcp_bind_hash, tcp_bind_unhash, tcp_sock_set_sport,
  add_head, tcp_hash_function,
}
use njucn_lab.Tcp.Hashing.{tcp_hash, tcp_unhash}
use njucn_lab.Tcp.Process.{to_state}

unfoldable pub tcp_sock_bind : ℕ → ℕ → Stack → Option (Bool × Stack)
tcp_sock_bind id port st = tcp_sock_set_sport id port st

-- The node is added here and once more by tcp_hash.
unfoldable pub tcp_sock_listen : ℕ → ℕ → Stack → Option (Bool × Stack)
tcp_sock_listen id backlog st = do
  tsk ← sock st id
  let listening = on_sock id (λ t. record (tcp_set_state tcp_listen t) { backlog = backlog }) st
  let hash = tcp_hash_function 0 0 tsk.sk_sport 0
  tcp_hash id (record listening { listen_table = add_head hash id listening.listen_table })

-- With a source port. The socket is hashed by its port once more.
abbrev pub connect_from : ℕ → Option ℕ → ℕ → ℕ → Stack → Option (Bool × Stack)
connect_from id none ip port st = some (false, st)
connect_from id (some sip) ip port st = do
  let named = on_sock id (λ t. record t { sk_sip = sip; sk_dip = ip; sk_dport = port }) st
  (hashed, st') ← tcp_hash id (on_sock id (tcp_set_state tcp_syn_sent) (tcp_bind_hash id named))
  some (if hashed then (true, on id (tcp_send_control_packet tcp_syn) st') else (false, st'))

-- tcp_sock_connect up to the sleep; `source` is the address of the interface that the route to the
-- peer has, if there is a route.
unfoldable pub tcp_sock_connect : ℕ → Option ℕ → ℕ → ℕ → Stack → Option (Bool × Stack)
tcp_sock_connect id source ip port st = do
  (bound, st') ← tcp_sock_set_sport id 0 st
  if bound then connect_from id source ip port st' else some (false, st')

-- The test behind the sleep.
unfoldable pub connect_result : TcpSock → Bool
connect_result tsk = elim tsk.state [ tcp_established ↦ true | _ ↦ false ]

unfoldable pub tcp_sock_accept_queue_full : TcpSock → Bool
tcp_sock_accept_queue_full tsk = leb tsk.backlog tsk.accept_backlog

-- The queue is not empty.
unfoldable pub tcp_sock_accept_dequeue : TcpSock → Option (ℕ × TcpSock)
tcp_sock_accept_dequeue tsk = elim tsk.accept_queue [
  | [] ↦ none
  | new ∷ rest ↦
      some (new, record tsk { accept_queue = rest; accept_backlog = tsk.accept_backlog - 1 })
]

-- tcp_sock_accept with a connection in the queue: the listening socket is hashed again, and its child
-- is the result if that succeeds.
unfoldable pub tcp_sock_accept : ℕ → Stack → Option (Option ℕ × Stack)
tcp_sock_accept id st = do
  tsk ← sock st id
  (new, tsk') ← tcp_sock_accept_dequeue tsk
  (hashed, st') ← tcp_hash id (on_sock id (λ _. tsk') st)
  some ((if hashed then some new else none), st')

unfoldable pub close_state : TcpState → ℕ → Stack → Option Stack
close_state tcp_established id st =
    some
      (on id (λ s. to_state tcp_fin_wait_1 (tcp_send_control_packet (bit_or tcp_fin tcp_ack) s)) st)
close_state tcp_close_wait id st =
    some
      (on id (λ s. tcp_send_control_packet (bit_or tcp_fin tcp_ack) (to_state tcp_last_ack s)) st)
close_state tcp_listen id st = do
  st' ← tcp_unhash id st
  tsk ← sock st' id
  some (on_sock id (tcp_set_state tcp_closed) st')
close_state tcp_closed id st = do st' ← tcp_unhash id st; tcp_bind_unhash id st'
close_state tcp_fin_wait_1 id st = some st
close_state tcp_fin_wait_2 id st = some st
close_state tcp_last_ack id st = some st
close_state tcp_syn_recv id st = some (on_sock id (tcp_set_state tcp_closed) st)
close_state tcp_syn_sent id st = some (on_sock id (tcp_set_state tcp_closed) st)
close_state tcp_closing id st = some (on_sock id (tcp_set_state tcp_closed) st)
close_state tcp_time_wait id st = some (on_sock id (tcp_set_state tcp_closed) st)

unfoldable pub tcp_sock_close : ℕ → Stack → Option Stack
tcp_sock_close id st = do tsk ← sock st id; close_state tsk.state id st

pub data ReadResult : Type 0 where
  -- -1
  failed : ReadResult
  -- -1 as well, and rcv_buf_lock stays taken
  failed_locked : ReadResult
  -- sleeps until data come, and holds no lock
  sleeps : ReadResult
  got : List ℕ → TcpSock → ReadResult

-- The round of the loop that finds bytes, which is its last one. With len = 0
-- the loop has no round.
abbrev pub read_bytes : ℕ → TcpSock → ReadResult
read_bytes len tsk =
    let (n, bytes, ring) = read tsk.rcv_buf (min len (used tsk.rcv_buf)) in
    got bytes (record tsk { rcv_buf = ring; rcv_wnd = (tsk.rcv_wnd + n) % 2 ^ 16 })

-- From where it wakes up: a FIN may have come.
unfoldable pub read_awake : ℕ → TcpSock → ReadResult
read_awake len tsk =
    let none_held = elim tsk.state as (λ _. ReadResult) [
      | tcp_close_wait ↦ failed_locked
      | _ ↦ sleeps
    ] in
    if used tsk.rcv_buf == 0 then none_held else read_bytes len tsk

unfoldable pub tcp_sock_read : ℕ → TcpSock → ReadResult
tcp_sock_read len tsk = elim tsk.state [
  | tcp_closed ↦ failed
  | tcp_close_wait ↦ failed
  | _ ↦ read_awake len tsk
]

-- A round of the loop in tcp_sock_write, while the window is open. The send buffer takes the whole of
-- `buf`, and not the part that is sent.
abbrev pub send_len : TcpSock → List ℕ → ℕ
send_len tsk rest = min (length rest) (min tsk.snd_wnd tcp_mss)

unfoldable pub write_round : List ℕ → List ℕ → Tcp → Tcp
write_round buf rest s =
    tcp_send_packet (take (send_len s.tsk rest) rest) (tcp_send_buffer_add_packet buf s)

-- The rounds until everything was sent or the window is closed, with what is left then. The fuel is
-- the length of what is left; `none` is a loop that goes on.
unfoldable pub write_rounds : ℕ → List ℕ → List ℕ → Tcp → Option (List ℕ × Tcp)
write_rounds fuel buf [] s = some ([], s)
write_rounds zero buf (b ∷ rest) s = none
write_rounds (suc fuel) buf (b ∷ rest) s =
    let next =
      write_rounds fuel buf (drop (send_len s.tsk (b ∷ rest)) (b ∷ rest))
        (write_round buf (b ∷ rest) s) in
    if tcp_tx_window_test s.tsk then next else some (b ∷ rest, s)

-- The states in which a socket may write.
abbrev pub may_write : TcpState → Bool
may_write tcp_established = true
may_write tcp_close_wait = true
may_write _ = false

-- tcp_sock_write up to its end or its first sleep on wait_send; false is the result -1.
unfoldable pub tcp_sock_write : List ℕ → Tcp → Option (Bool × List ℕ × Tcp)
tcp_sock_write buf s =
    if may_write s.tsk.state
    then (do (left, s') ← write_rounds (length buf) buf buf s; some (true, left, s'))
    else some (false, buf, s)
