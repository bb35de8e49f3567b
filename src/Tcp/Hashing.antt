-- ===== src/Tcp/Hashing.antt =====
-- tcp_hash and tcp_unhash of code-exp2/tcp_sock.c: the tables of listening and connected sockets.
use njucn_lab.Common.{ℕ, Option, none, some, ◌>>=◌, Bool, true, false}
use njucn_lab.Tcp.Sock.{TcpSock, TcpState, tcp_closed, tcp_listen}
use njucn_lab.Tcp.Stack.{
  Stack, sock, on_sock, one_more, add_head, unlink, free_tcp_sock, tcp_hash_function,
  tcp_sock_lookup_established,
}

-- The list of a socket depends on its state: that of a closed one is none.
abbrev pub hash_established : ℕ → TcpSock → Stack → Option (Bool × Stack)
hash_established id tsk st = do
  found ← tcp_sock_lookup_established tsk.sk_sip tsk.sk_dip tsk.sk_sport tsk.sk_dport st
  let hash = tcp_hash_function tsk.sk_sip tsk.sk_dip tsk.sk_sport tsk.sk_dport
  some (elim found [
    | some other ↦ (false, st)
    | none ↦ (
      true,
      on_sock id one_more (record st { established_table = add_head hash id st.established_table }),
    )
  ])

abbrev pub hash_by_state : TcpState → ℕ → TcpSock → Stack → Option (Bool × Stack)
hash_by_state tcp_closed id tsk st = some (false, st)
hash_by_state tcp_listen id tsk st = some (
  true,
  on_sock id one_more (record st {
    listen_table = add_head (tcp_hash_function 0 0 tsk.sk_sport 0) id st.listen_table;
  }),
)
hash_by_state _ id tsk st = hash_established id tsk st

unfoldable pub tcp_hash : ℕ → Stack → Option (Bool × Stack)
tcp_hash id st = do tsk ← sock st id; hash_by_state tsk.state id tsk st

-- The node is in the list of listening sockets or in that of connected ones.
unfoldable pub tcp_unhash : ℕ → Stack → Option Stack
tcp_unhash id st = do
  tsk ← sock st id
  let listening = unlink (tcp_hash_function 0 0 tsk.sk_sport 0) id st.listen_table
  elim listening [
    | some table ↦ some (free_tcp_sock id (record st { listen_table = table }))
    | none ↦ do
      let hash = tcp_hash_function tsk.sk_sip tsk.sk_dip tsk.sk_sport tsk.sk_dport
      table ← unlink hash id st.established_table
      some (free_tcp_sock id (record st { established_table = table }))
  ]
