-- ===== src/Tcp/Stack/Endless.antt =====
-- A node that is added twice makes its list endless.

use njucn_lab.Common.{
  ℕ, ◌<◌, ◌≡◌, ap, ◌∙◌, List, [], ◌∷◌, none, some, true, length, get_or-set_self, length-set, ◌==◌,
  arith, if◌then◌else◌,
}
use njucn_lab.Tcp.Sock.{TcpSock}
use njucn_lab.Tcp.Stack.{
  Stack, Bucket, sock, linked, nodes_before, list_add_head, add_head, bucket, tcp_hash_function,
  tcp_hash_size, find_sock, empty_bucket,
}

abbrev pub only : ℕ → Bucket
only id = record { ids = id ∷ []; endless = true }

add_twice : (id : ℕ) (b : Bucket) → list_add_head id (list_add_head id b) ≡ only id
unfolding list_add_head linked nodes_before
add_twice id b = ground arith

-- What is left of a list after a node was added at its head and added again.
pub bucket-add_twice :
    (hash id : ℕ) (table : List Bucket)
    → hash < length table
    → bucket (add_head hash id (add_head hash id table)) hash ≡ only id
bucket-add_twice hash id table h =
    let once = get_or-set_self table hash (list_add_head id (bucket table hash)) empty_bucket h in
    let twice =
      get_or-set_self (add_head hash id table) hash
        (list_add_head id (bucket (add_head hash id table) hash)) empty_bucket
        (omega (arith, length-set table hash (list_add_head id (bucket table hash)))) in
    twice ∙ ap (list_add_head id) once ∙ add_twice id (bucket table hash)

pub hash-lt : (a b c d : ℕ) → tcp_hash_function a b c d < tcp_hash_size
unfolding tcp_hash_function
hash-lt a b c d = omega arith

-- Searches of a list that consists of one socket and goes round.
pub find-only :
    {tsk : TcpSock} (id port : ℕ) (st : Stack)
    → sock st id ≡ some tsk
    → find_sock (λ t. t.sk_sport == port) st true (id ∷ [])
      ≡ (if tsk.sk_sport == port then some (some id) else none)
unfolding find_sock
find-only {tsk} id port st h = rw (find_sock, h)
