-- ===== src/Tcp/Stack.antt =====
-- The tables of code-exp2/tcp_sock.c and the sockets in them: lookup, hashing, ports and reference
-- counts. `none` is a walk along a list that does not end, or one through a stale pointer.
pub mod Lookup
pub mod Ports
pub mod Endless
use Prim.Native.Nat.{bit_xor}
use njucn_lab.Common.{
  ℕ, zero, suc, ◌+◌, ◌-◌, ◌^◌, ◌/◌, ◌%◌, List, [], ◌∷◌, ◌++◌, Option, none, some, ◌>>=◌, Bool, true,
  false, not, length, map, replicate, get_or, set, ltb, ◌==◌, ◌&&◌, ◌||◌, if◌then◌else◌,
}
use njucn_lab.Net.Bytes.{be16, be32}
use njucn_lab.Switch.Hash.{hash8}
use njucn_lab.Tcp.Sock.{Tcp, TcpSock, TcpState, TcpCb, Segment, TimerType, tcp_closed, tcp_listen}

-- A list of the hash tables, from its head on. A node that is added while it is in the list takes the
-- place of its old self: the walk from the head then goes round for ever among the nodes before it,
-- which is what `endless` says.
pub record Bucket : Type 0 where
  pub ids : List ℕ
  pub endless : Bool

abbrev pub empty_bucket : Bucket
empty_bucket = record { ids = []; endless = false }

unfoldable pub linked : ℕ → List ℕ → Bool
linked id [] = false
linked id (x ∷ xs) = (x == id) || linked id xs

unfoldable pub nodes_before : ℕ → List ℕ → List ℕ
nodes_before id [] = []
nodes_before id (x ∷ xs) = let rest = nodes_before id xs in if x == id then [] else x ∷ rest

unfoldable pub list_add_head : ℕ → Bucket → Bucket
list_add_head id b =
    if linked id b.ids
    then record { ids = id ∷ nodes_before id b.ids; endless = true }
    else record b { ids = id ∷ b.ids }

unfoldable pub delete_id : ℕ → List ℕ → List ℕ
delete_id id [] = []
delete_id id (x ∷ xs) = let rest = delete_id id xs in if x == id then xs else x ∷ rest

-- A socket's number is its place in `socks`; `none` is one that was freed.
pub record Stack : Type 0 where
  pub socks : List (Option TcpSock)
  pub established_table : List Bucket
  pub listen_table : List Bucket
  pub bind_table : List Bucket
  pub timer_list : List (ℕ × TimerType)
  pub sent : List Segment

abbrev pub tcp_hash_size : ℕ
tcp_hash_size = 256

unfoldable pub init_tcp_stack : Stack
init_tcp_stack = record {
  socks = [];
  established_table = replicate tcp_hash_size empty_bucket;
  listen_table = replicate tcp_hash_size empty_bucket;
  bind_table = replicate tcp_hash_size empty_bucket;
  timer_list = [];
  sent = [];
}

-- The order of a number's bytes does not matter to hash8.
unfoldable pub tcp_hash_function : ℕ → ℕ → ℕ → ℕ → ℕ
tcp_hash_function saddr daddr sport dport =
    bit_xor (bit_xor (hash8 (be32 saddr)) (hash8 (be32 daddr)))
      (bit_xor (hash8 (be16 sport)) (hash8 (be16 dport)))
    % tcp_hash_size

abbrev pub sock : Stack → ℕ → Option TcpSock
sock st id = get_or st.socks id none

-- Runs what concerns one socket. A socket that was freed is left alone.
unfoldable pub on : ℕ → (Tcp → Tcp) → Stack → Stack
on id f st = elim (sock st id) [
  | none ↦ st
  | some tsk ↦
      let s = f (record { id = id; tsk = tsk; timer_list = st.timer_list; sent = st.sent }) in
      record st { socks = set st.socks id (some s.tsk); timer_list = s.timer_list; sent = s.sent }
]

abbrev pub on_sock : ℕ → (TcpSock → TcpSock) → Stack → Stack
on_sock id f st = on id (λ s. record s { tsk = f s.tsk }) st

abbrev pub tcp_set_state : TcpState → TcpSock → TcpSock
tcp_set_state state tsk = record tsk { state = state }

abbrev pub bucket : List Bucket → ℕ → Bucket
bucket table hash = get_or table hash empty_bucket

-- What a search gives when the nodes give out.
abbrev pub at_end : Bool → Option (Option ℕ)
at_end true = none
at_end false = some none

-- The first socket that a test finds, if any. A socket that was freed is a stale pointer.
unfoldable pub find_sock : (TcpSock → Bool) → Stack → Bool → List ℕ → Option (Option ℕ)
find_sock test st endless [] = at_end endless
find_sock test st endless (id ∷ ids) =
    let rest = find_sock test st endless ids in
    elim (sock st id) [ none ↦ none | some tsk ↦ if test tsk then some (some id) else rest ]

abbrev pub find_in : (TcpSock → Bool) → Stack → Bucket → Option (Option ℕ)
find_in test st b = find_sock test st b.endless b.ids

abbrev pub same_tuple : ℕ → ℕ → ℕ → ℕ → TcpSock → Bool
same_tuple saddr daddr sport dport tsk =
    (tsk.sk_sip == saddr)
    && (tsk.sk_dip == daddr)
    && (tsk.sk_sport == sport)
    && (tsk.sk_dport == dport)

unfoldable pub tcp_sock_lookup_established : ℕ → ℕ → ℕ → ℕ → Stack → Option (Option ℕ)
tcp_sock_lookup_established saddr daddr sport dport st =
    find_in (same_tuple saddr daddr sport dport) st
      (bucket st.established_table (tcp_hash_function saddr daddr sport dport))

abbrev pub same_port : ℕ → TcpSock → Bool
same_port sport tsk = tsk.sk_sport == sport

unfoldable pub tcp_sock_lookup_listen : ℕ → Stack → Option (Option ℕ)
tcp_sock_lookup_listen sport st =
    find_in (same_port sport) st (bucket st.listen_table (tcp_hash_function 0 0 sport 0))

-- The addresses of the segment are the other way round.
unfoldable pub tcp_sock_lookup : TcpCb → Stack → Option (Option ℕ)
tcp_sock_lookup cb st = do
  found ← tcp_sock_lookup_established cb.daddr cb.saddr cb.dport cb.sport st
  elim found [ some id ↦ some (some id) | none ↦ tcp_sock_lookup_listen cb.dport st ]

-- One reference less; without references the socket is freed.
unfoldable pub free_tcp_sock : ℕ → Stack → Stack
free_tcp_sock id st = elim (sock st id) [
  | none ↦ st
  | some tsk ↦
      if ltb 1 tsk.ref_cnt
      then record st { socks = set st.socks id (some (record tsk { ref_cnt = tsk.ref_cnt - 1 })) }
      else record st { socks = set st.socks id none }
]

abbrev pub add_head : ℕ → ℕ → List Bucket → List Bucket
add_head hash id table = set table hash (list_add_head id (bucket table hash))

abbrev pub one_more : TcpSock → TcpSock
one_more tsk = record tsk { ref_cnt = tsk.ref_cnt + 1 }

unfoldable pub tcp_bind_hash : ℕ → Stack → Stack
tcp_bind_hash id st = elim (sock st id) [
  | none ↦ st
  | some tsk ↦
      on_sock id one_more (record st {
        bind_table = add_head (tcp_hash_function 0 0 tsk.sk_sport 0) id st.bind_table;
      })
]

-- list_delete_entry of a node that is in the list of a bucket. A node that is linked to itself stays
-- where it is; other lists that go round are not followed.
unfoldable pub unlink : ℕ → ℕ → List Bucket → Option (List Bucket)
unlink hash id table =
    let b = bucket table hash in
    let whole = some (set table hash (record b { ids = delete_id id b.ids })) in
    let own = if length b.ids == 1 then some table else none in
    if linked id b.ids then if b.endless then own else whole else none

unfoldable pub tcp_bind_unhash : ℕ → Stack → Option Stack
tcp_bind_unhash id st = do
  tsk ← sock st id
  table ← unlink (tcp_hash_function 0 0 tsk.sk_sport 0) id st.bind_table
  some (free_tcp_sock id (record st { bind_table = table }))

abbrev pub is_some : Option ℕ → Bool
is_some none = false
is_some (some _) = true

unfoldable pub tcp_port_in_use : ℕ → Stack → Option Bool
tcp_port_in_use sport st = do
  found ← find_in (same_port sport) st (bucket st.bind_table (tcp_hash_function 0 0 sport 0))
  some (is_some found)

abbrev pub port_min : ℕ
port_min = 12345

abbrev pub port_max : ℕ
port_max = 23456

-- The loop from a port on, with the number of ports left. A walk that does not end ends it too.
unfoldable pub get_port_from : ℕ → ℕ → Stack → Option ℕ
get_port_from port zero st = some 0
get_port_from port (suc left) st =
    let rest = get_port_from (port + 1) left st in
    elim (tcp_port_in_use port st) [ none ↦ none | some true ↦ rest | some false ↦ some port ]

unfoldable pub tcp_get_port : Stack → Option ℕ
tcp_get_port st = get_port_from port_min (port_max - port_min) st

-- The port to take; 0 if the one asked for is in use.
unfoldable pub choose_port : ℕ → Stack → Option ℕ
choose_port zero st = tcp_get_port st
choose_port (suc p) st = do taken ← tcp_port_in_use (suc p) st; some (if taken then 0 else suc p)

-- The Bool is false for the result -1.
unfoldable pub tcp_sock_set_sport : ℕ → ℕ → Stack → Option (Bool × Stack)
tcp_sock_set_sport id port st = do
  chosen ← choose_port port st
  some (
      if chosen == 0
      then (false, st)
      else (true, tcp_bind_hash id (on_sock id (λ tsk. record tsk { sk_sport = chosen }) st)))
