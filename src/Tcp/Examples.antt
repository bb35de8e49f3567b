-- ===== src/Tcp/Examples.antt =====
-- The stack of code-exp2 with one socket.
mod Arrivals
use Prim.Native.Nat.{bit_or}
use mathlib.Core.List.{Memᴰ}
use njucn_lab.Tcp.RingBuffer.Cells.{contents}
use native.Mathlib.Decide.{ℕ_discrete}
use mathlib.Core.List.Memᴰ.{cases_cons}
use njucn_lab.Tcp.Stack.Endless.{hash-lt}
use njucn_lab.Common.{
  zero, suc, inl, inr, subst, ap, sym, ◌∙◌, get_or, get_or-set_self, get_or-set_ne,
  length-replicate, set, ◌*◌, ◌-◌, ◌≡◌, ℕ, ◌+◌, ◌/◌, ◌≤◌, ◌<◌, ◌≡◌, ◌⊎◌, ◌↔◌, refl, List, [], ◌∷◌,
  ◌++◌, none, some, true, false, replicate, if◌then◌else◌, arith, ltb,
}
use njucn_lab.Switch.Hash.{hash8}
use njucn_lab.Tcp.RingBuffer.{alloc, free}
use njucn_lab.Tcp.RingBuffer.Inv.{alloc-IsValid}
use njucn_lab.Tcp.Seq.{add32, less_than_32b, less_or_equal_32b}
use njucn_lab.Tcp.Seq.Order.{less_than_32b-add32}
use njucn_lab.Tcp.Wait.{wait_init, wake_up, sleep_on, resumed}
use njucn_lab.Tcp.Wait.Wakeup.{wake_ups, wake_up-sleep_on}
use njucn_lab.Tcp.Sock.{
  Tcp, TcpSock, TcpCb, alloc_tcp_sock, tcp_established, tcp_close_wait, has, tcp_fin, tcp_syn,
  tcp_ack,
}
use njucn_lab.Tcp.Header.{
  tcp_init_hdr, with_tcp_checksum, tcp_cb_init, tcp_checksum, stored_checksum,
}
use njucn_lab.Tcp.Header.RoundTrip.{tcp_cb_init-with_tcp_checksum}
use njucn_lab.Tcp.Timer.{
  tcp_set_retrans_timer, tcp_unset_retrans_timer, tcp_update_retrans_timer, tcp_set_persist_timer,
  tcp_unset_persist_timer,
}
use njucn_lab.Tcp.Timer.Linked.{IsLinked, count, timers-IsLinked}
use njucn_lab.Tcp.Out.{tcp_update_send_buffer}
use njucn_lab.Tcp.Out.Buffer.{Split, tcp_update_send_buffer-Split}
use njucn_lab.Tcp.Reorder.Stream.{IsPart, AllParts, bytes}
use njucn_lab.Tcp.Reorder.Arrivals.{AllSegments, receive_all}
use njucn_lab.Tcp.Reorder.Cuts.{IsCut, Rising, size}
use njucn_lab.Tcp.Reorder.Delivery.{AreSegments, At, receive_all_lem}
use njucn_lab.Tcp.Reorder.Stuck.{Same, overlap_blocks}
use njucn_lab.Tcp.Congestion.{Float}
use njucn_lab.Tcp.Stack.{
  bucket, Bucket, Stack, empty_bucket, tcp_hash_size, tcp_hash_function, tcp_sock_lookup_listen,
  tcp_get_port, sock, on, port_min, port_max,
}
use njucn_lab.Tcp.Stack.Ports.{Found, IsHashed, tcp_get_port-Found}
use njucn_lab.Tcp.Process.{tcp_process, process_state, process_close_wait}
use njucn_lab.Tcp.Process.Transitions.{next_state, IsLocal, tcp_process-next_state}
use njucn_lab.Tcp.Api.{tcp_sock_listen, tcp_sock_write, may_write}
use njucn_lab.Tcp.Api.Write.{Written, tcp_sock_write-Written}
use njucn_lab.Tcp.Api.Listen.{tcp_sock_listen_endless}

abbrev first : ℕ
first = 0xfffffffe

abbrev counting : ℕ → ℕ
counting i = i + 1

abbrev tsk : TcpSock
tsk = record alloc_tcp_sock {
  sk_sport = 0x1234;
  rcv_buf = alloc 8;
  rcv_nxt = first;
  send_buf = record { seq = 10; packet = 1 ∷ [] } ∷ record { seq = 11; packet = 2 ∷ [] } ∷ [];
  state = tcp_established;
}

abbrev one : Tcp
one = record { id = 0; tsk = tsk; timer_list = []; sent = [] }

abbrev arriving : ℕ → ℕ → List ℕ → TcpCb
arriving seq seq_end payload = record {
  saddr = 2;
  daddr = 1;
  sport = 80;
  dport = 0x1234;
  seq = seq;
  seq_end = seq_end;
  ack = 0;
  rwnd = 100;
  flags = tcp_ack;
  payload = payload;
}

less_than_32b-add32_example :
    ((less_than_32b (add32 first 1) (add32 first 5) ≡ true) ↔ (1 < 5))
    × ((less_or_equal_32b (add32 first 1) (add32 first 5) ≡ true) ↔ (1 ≤ 5))
less_than_32b-add32_example =
    less_than_32b-add32 first 1 5 (omega arith) (omega arith) (omega arith)

-- Three wake-ups for one thread.
wake_up-sleep_on_example :
    let (woken, waits) = sleep_on (wake_ups 3 wait_init) in
    let (asleep, waits') = sleep_on wait_init in
    let resumed' = resumed (wake_ups 3 asleep) in
    (waits' ≡ true)
    × ((wake_up asleep).1 ≡ true)
    × (waits ≡ false)
    × (woken ≡ record wait_init { notified = false; sleep = false })
    × (resumed' ≡ woken)
    × ((sleep_on woken).1 ≡ true)
unfolding wait_init
wake_up-sleep_on_example = wake_up-sleep_on 2 wait_init refl refl

tcp_update_send_buffer-Split_example :
    let (updated, s') = tcp_update_send_buffer 11 one in
    Split 11 tsk.send_buf s'.tsk.send_buf updated
    × (s'.sent ≡ [])
    × ((s'.tsk.send_buf ≡ []) → s'.tsk.retrans_timer.enable ≡ false)
    × (s'.tsk.wait_send ≡ tsk.wait_send)
tcp_update_send_buffer-Split_example = tcp_update_send_buffer-Split 11 one

abbrev tables : Stack
tables = record {
  socks = some (record tsk { state = tcp_close_wait }) ∷ [];
  established_table = replicate tcp_hash_size empty_bucket;
  listen_table = replicate tcp_hash_size empty_bucket;
  bind_table = replicate tcp_hash_size empty_bucket;
  timer_list = [];
  sent = [];
}

-- The socket is bound to its port.
abbrev home : ℕ
home = tcp_hash_function 0 0 0x1234 0

abbrev no_sockets : List Bucket
no_sockets = replicate tcp_hash_size empty_bucket

abbrev own_list : Bucket
own_list = record { ids = 0 ∷ []; endless = false }

abbrev bound : Stack
bound = record tables { bind_table = set no_sockets home own_list }

empty_everywhere : (n hash : ℕ) → get_or (replicate n empty_bucket) hash empty_bucket ≡ empty_bucket
empty_everywhere zero hash = refl
empty_everywhere (suc n) zero = refl
empty_everywhere (suc n) (suc hash) = empty_everywhere n hash

bound-IsHashed : IsHashed bound
unfolding IsHashed
bound-IsHashed hash id t m e = elim (ℕ_discrete home hash) [
  | yes q ↦
      let here : Memᴰ id (0 ∷ []) =
        subst (λ (b : Bucket). Memᴰ id b.ids)
          (ap (bucket bound.bind_table) (sym q)
            ∙ get_or-set_self no_sockets home own_list empty_bucket
                (omega (arith, hash-lt 0 0 0x1234 0, length-replicate 256 empty_bucket)))
          m in
      elim (cases_cons here) [
        | inl z ↦
            let s : some (record tsk { state = tcp_close_wait }) ≡ some t =
              ap (sock bound) (sym z) ∙ e in
            let same : record tsk { state = tcp_close_wait } ≡ t = cc in
            ap (λ (u : TcpSock). tcp_hash_function 0 0 u.sk_sport 0) (sym same) ∙ q
        | inr none' ↦ elim none' [ ]
      ]
  | no n ↦
      let nobody : Memᴰ id [] =
        subst (λ (b : Bucket). Memᴰ id b.ids)
          (get_or-set_ne no_sockets home hash own_list empty_bucket n
            ∙ empty_everywhere tcp_hash_size hash)
          m in
      elim nobody [ ]
]

tcp_get_port-Found_example : Found bound port_min port_max (tcp_get_port bound)
tcp_get_port-Found_example = tcp_get_port-Found bound bound-IsHashed

tcp_sock_listen_endless_example :
    (st' : Stack) × (tcp_sock_listen 0 5 tables ≡ some (true, st'))
    × (tcp_sock_lookup_listen 0x1234 st' ≡ some (some 0))
    × (tcp_sock_lookup_listen 0x3412 st' ≡ none)
unfolding tcp_hash_function hash8
tcp_sock_listen_endless_example =
    tcp_sock_listen_endless 0 5 0x3412 tables refl refl (omega arith) refl

-- Floats that are whole numbers, for the witness.
abbrev whole : Float
whole = record {
  of_u32 = λ n. n;
  to_u32 = λ n. n;
  add = λ a b. a + b;
  div = λ a b. a / (b + 1);
  less = λ a b. ltb a b;
}

abbrev fin : TcpCb
fin = arriving first 0 []

tcp_process-next_state_example :
    (tsk' : TcpSock) × (sock (on 0 (process_close_wait fin) tables) 0 ≡ some tsk')
    × (tsk'.state ≡ next_state tcp_close_wait tcp_ack)
unfolding tcp_process process_state IsLocal
tcp_process-next_state_example =
    tcp_process-next_state whole 7 0 fin tables (on 0 (process_close_wait fin) tables)
      (record tsk { state = tcp_close_wait }) refl
      ((λ e. ground arith), (λ e. ground arith), (λ e. ground arith)) refl

abbrev hello : List ℕ
hello = b'h' ∷ b'i' ∷ []

tcp_cb_init-with_tcp_checksum_example :
    let s = with_tcp_checksum 1 2 (tcp_init_hdr 80 8080 first 7 tcp_ack 100 ++ hello) in
    (tcp_checksum s.from_ip s.to_ip s.tcp ≡ stored_checksum s.tcp)
    × ((tcp_cb_init s).sport ≡ 80)
    × ((tcp_cb_init s).dport ≡ 8080)
    × ((tcp_cb_init s).seq ≡ first)
    × ((tcp_cb_init s).ack ≡ 7)
    × ((tcp_cb_init s).rwnd ≡ 100)
    × ((tcp_cb_init s).flags ≡ tcp_ack)
    × ((tcp_cb_init s).payload ≡ hello)
    × ((tcp_cb_init s).seq_end
        ≡ add32 first (2 + (if has tcp_ack (bit_or tcp_syn tcp_fin) then 1 else 0)))
tcp_cb_init-with_tcp_checksum_example =
    tcp_cb_init-with_tcp_checksum 1 2 80 8080 first 7 tcp_ack 100 hello (omega arith) (omega arith)
      (omega arith) (omega arith) (omega arith) (omega arith)

timers-IsLinked_example :
    IsLinked (tcp_set_retrans_timer one)
    × IsLinked (tcp_unset_retrans_timer one)
    × IsLinked (tcp_update_retrans_timer one)
    × IsLinked (tcp_set_persist_timer one)
    × IsLinked (tcp_unset_persist_timer one)
unfolding count alloc_tcp_sock
timers-IsLinked_example =
    timers-IsLinked one (record { retrans_linked = refl; persist_linked = refl })

abbrev writer : Tcp
writer = record one { tsk = record tsk { snd_wnd = 2000 } }

tcp_sock_write-Written_example :
    ((may_write tcp_established ≡ true)
      × ((left : List ℕ) × (s' : Tcp) × (tcp_sock_write hello writer ≡ some (true, left, s'))
          × Written hello writer left s'))
    ⊎ ((may_write tcp_established ≡ false)
        × (tcp_sock_write hello writer ≡ some (false, hello, writer)))
tcp_sock_write-Written_example = tcp_sock_write-Written hello writer (omega arith)
