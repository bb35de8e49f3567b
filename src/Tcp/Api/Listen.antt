-- ===== src/Tcp/Api/Listen.antt =====
-- What tcp_sock_listen makes of the table of listening sockets.
use njucn_lab.Common.{ℕ, ◌≡◌, ◌≢◌, ap, ◌∙◌, none, some, true, length, ◌==◌, arith}
use njucn_lab.Tcp.Sock.{TcpSock, tcp_listen}
use njucn_lab.Tcp.Stack.{
  Stack, sock, on_sock, add_head, bucket, tcp_hash_function, tcp_hash_size, find_sock,
  tcp_sock_lookup_listen, tcp_set_state, one_more,
}
use njucn_lab.Tcp.Stack.Lookup.{sock-on_self, on-listen_table}
use njucn_lab.Tcp.Stack.Endless.{bucket-add_twice, hash-lt, find-only, only}
use njucn_lab.Tcp.Hashing.{tcp_hash}
use njucn_lab.Tcp.Api.{tcp_sock_listen}

abbrev listening : ℕ → TcpSock → TcpSock
listening backlog t = record (tcp_set_state tcp_listen t) { backlog = backlog }

abbrev pub listen_hash : ℕ → ℕ
listen_hash port = tcp_hash_function 0 0 port 0

-- The stack afterwards.
abbrev after : ℕ → ℕ → TcpSock → Stack → Stack
after id backlog tsk st =
    let l = on_sock id (listening backlog) st in
    let once = add_head (listen_hash tsk.sk_sport) id l.listen_table in
    on_sock id one_more (record l { listen_table = add_head (listen_hash tsk.sk_sport) id once })

listen-after :
    {tsk : TcpSock} (id backlog : ℕ) (st : Stack)
    → sock st id ≡ some tsk
    → tcp_sock_listen id backlog st ≡ some (true, after id backlog tsk st)
unfolding tcp_sock_listen tcp_hash
listen-after {tsk} id backlog st h =
    let found = sock-on_self id (λ s. record s { tsk = listening backlog s.tsk }) st h in
    rw (h, found)

after-sock :
    {tsk : TcpSock} (id backlog : ℕ) (st : Stack)
    → sock st id ≡ some tsk
    → sock (after id backlog tsk st) id ≡ some (one_more (listening backlog tsk))
after-sock {tsk} id backlog st h =
    let l = on_sock id (listening backlog) st in
    let once = add_head (listen_hash tsk.sk_sport) id l.listen_table in
    sock-on_self id (λ s. record s { tsk = one_more s.tsk })
      (record l { listen_table = add_head (listen_hash tsk.sk_sport) id once })
      (sock-on_self id (λ s. record s { tsk = listening backlog s.tsk }) st h)

after-bucket :
    (tsk : TcpSock) (id backlog : ℕ) (st : Stack)
    → length st.listen_table ≡ tcp_hash_size
    → bucket (after id backlog tsk st).listen_table (listen_hash tsk.sk_sport) ≡ only id
after-bucket tsk id backlog st size =
    let l = on_sock id (listening backlog) st in
    let once = add_head (listen_hash tsk.sk_sport) id l.listen_table in
    let kept = on-listen_table id (λ s. record s { tsk = listening backlog s.tsk }) st in
    ap (λ t. bucket t (listen_hash tsk.sk_sport))
      (on-listen_table id (λ s. record s { tsk = one_more s.tsk })
        (record l { listen_table = add_head (listen_hash tsk.sk_sport) id once }))
    ∙ bucket-add_twice (listen_hash tsk.sk_sport) id l.listen_table
        (omega (arith, hash-lt 0 0 tsk.sk_sport 0, ap length kept, size))

-- Listening succeeds, and from then on the socket is found by its own port, while a search for any
-- other port of the same hash does not end: the socket's node was added to the list twice, so that
-- the list goes round, and no other socket of the list is reached any more.
pub tcp_sock_listen_endless :
    {tsk : TcpSock} (id backlog port : ℕ) (st : Stack)
    → sock st id ≡ some tsk
    → length st.listen_table ≡ tcp_hash_size
    → port ≢ tsk.sk_sport
    → tcp_hash_function 0 0 port 0 ≡ tcp_hash_function 0 0 tsk.sk_sport 0
    → (st' : Stack) × (tcp_sock_listen id backlog st ≡ some (true, st'))
      × (tcp_sock_lookup_listen tsk.sk_sport st' ≡ some (some id))
      × (tcp_sock_lookup_listen port st' ≡ none)
unfolding tcp_sock_lookup_listen
tcp_sock_listen_endless {tsk} id backlog port st h size ne same =
    let st' = after id backlog tsk st in
    let here = after-sock id backlog st h in
    let ring = after-bucket tsk id backlog st size in
    (
      st',
      listen-after id backlog st h,
      ground (
        arith,
        ap (λ b. find_sock (λ t. t.sk_sport == tsk.sk_sport) st' b.endless b.ids) ring,
        find-only id tsk.sk_sport st' here,
      ),
      ground (
        arith,
        ap (bucket st'.listen_table) same,
        ap (λ b. find_sock (λ t. t.sk_sport == port) st' b.endless b.ids)
            (ap (bucket st'.listen_table) same ∙ ring),
        find-only id port st' here,
      ),
    )
