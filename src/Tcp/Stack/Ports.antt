-- ===== src/Tcp/Stack/Ports.antt =====
-- Which port a socket gets.
use mathlib.Core.List.{Memᴰ}
use mathlib.Core.List.Memᴰ.{head, tail, cases_cons}
use njucn_lab.Common.{
  Bool, ◌≢◌, ◌⊎◌, List, [], ◌∷◌, sym, ap, ◌∙◌, Bool-cases, ◌>>=◌, refl, ℕ, zero, suc, ◌+◌, ◌-◌, ◌≤◌,
  ◌<◌, ◌≡◌, inl, inr, Option, none, some, true, false, Option-cases, arith, subst,
}
use native.Mathlib.Decide.{dec_le}
use njucn_lab.Tcp.Sock.{TcpSock}
use njucn_lab.Tcp.Stack.{
  bucket, sock, find_sock, same_port, is_some, tcp_hash_function, Stack, tcp_port_in_use,
  get_port_from, tcp_get_port, port_min, port_max,
}

-- A bound socket has that port.
unfoldable pub UsesPort : Stack → ℕ → Type 0
UsesPort st port =
    (hash : ℕ) × (id : ℕ) × (tsk : TcpSock) × Memᴰ id (bucket st.bind_table hash).ids
    × (sock st id ≡ some tsk)
    × (tsk.sk_sport ≡ port)

-- Each bound socket is in the list of its port.
unfoldable pub IsHashed : Stack → Type 0
IsHashed st =
    (hash id : ℕ) (tsk : TcpSock)
    → Memᴰ id (bucket st.bind_table hash).ids
    → sock st id ≡ some tsk
    → tcp_hash_function 0 0 tsk.sk_sport 0 ≡ hash

-- A walk along the list of a port that cannot end well: the list goes round, or holds a freed socket.
unfoldable pub IsBroken : Stack → ℕ → Type 0
IsBroken st port =
    let b = bucket st.bind_table (tcp_hash_function 0 0 port 0) in
    (b.endless ≡ true) ⊎ ((id : ℕ) × Memᴰ id b.ids × (sock st id ≡ none))

-- What a search along a list finds.
data Searched (port : ℕ) (st : Stack) (endless : Bool) (ids : List ℕ)
    : Option (Option ℕ) → Type 0 where
  hit :
      (id : ℕ) (tsk : TcpSock)
      → Memᴰ id ids
      → sock st id ≡ some tsk
      → tsk.sk_sport ≡ port
      → Searched port st endless ids (some (some id))
  miss :
      ((id : ℕ) (tsk : TcpSock) → Memᴰ id ids → sock st id ≡ some tsk → tsk.sk_sport ≢ port)
      → Searched port st endless ids (some none)
  goes_round : endless ≡ true → Searched port st endless ids none
  stale : (id : ℕ) → Memᴰ id ids → sock st id ≡ none → Searched port st endless ids none

Searched-more :
    {port : ℕ} {st : Stack} {endless : Bool} {ids : List ℕ} {o : Option (Option ℕ)} (x : ℕ)
    (t : TcpSock)
    → sock st x ≡ some t
    → t.sk_sport ≢ port
    → Searched port st endless ids o
    → Searched port st endless (x ∷ ids) o
Searched-more x t h ne (hit id tsk m e p) = hit id tsk (tail m) e p
Searched-more {st = st} x t h ne (miss f) = miss (λ id tsk m e. elim (cases_cons m) [
  | inl q ↦
      let s : some t ≡ some tsk = sym h ∙ ap (sock st) (sym q) ∙ e in
      λ p. ne (ap (λ (u : TcpSock). u.sk_sport) (let r : t ≡ tsk = cc in r) ∙ p)
  | inr m' ↦ f id tsk m' e
])
Searched-more x t h ne (goes_round e) = goes_round e
Searched-more x t h ne (stale id m e) = stale id (tail m) e

find_sock-Searched :
    (port : ℕ) (st : Stack) (endless : Bool) (ids : List ℕ)
    → Searched port st endless ids (find_sock (same_port port) st endless ids)
unfolding find_sock
find_sock-Searched port st true [] = goes_round refl
find_sock-Searched port st false [] = miss (λ id tsk m e p. elim m [ ])
find_sock-Searched port st endless (x ∷ ids) = elim (Option-cases (sock st x)) [
  | inl e ↦ rw (find_sock, e) (stale x (head refl) e)
  | inr (t, e) ↦ elim (Bool-cases (same_port port t)) [
    | inl w ↦ rw (find_sock, e, w) (hit x t (head refl) e (ground (arith, w)))
    | inr w ↦
        rw (find_sock, e, w)
          (Searched-more x t e (ground (arith, w)) (find_sock-Searched port st endless ids))
  ]
]

-- Whether a port is in use, as the walk along its list says.
data Used (st : Stack) (port : ℕ) : Option Bool → Type 0 where
  used : UsesPort st port → Used st port (some true)
  unused : (UsesPort st port → ⊥) → Used st port (some false)
  broken : IsBroken st port → Used st port none

port_of :
    {st : Stack} {port : ℕ} {o : Option (Option ℕ)}
    → IsHashed st
    → let b = bucket st.bind_table (tcp_hash_function 0 0 port 0) in
      Searched port st b.endless b.ids o → Used st port (o >>= (λ found. some (is_some found)))
unfolding UsesPort IsHashed IsBroken
port_of h (hit id tsk m e p) = used (_, id, tsk, m, e, p)
port_of {st} {port} h (miss f) = unused (λ (hash, id, tsk, m, e, p).
    f id tsk
      (subst (λ k. Memᴰ id (bucket st.bind_table k).ids)
        (sym (h hash id tsk m e) ∙ ap (λ k. tcp_hash_function 0 0 k 0) p) m)
      e p)
port_of h (goes_round e) = broken (inl e)
port_of h (stale id m e) = broken (inr (id, m, e))

tcp_port_in_use-Used :
    (st : Stack) (port : ℕ) → IsHashed st → Used st port (tcp_port_in_use port st)
unfolding tcp_port_in_use
tcp_port_in_use-Used st port h =
    let b = bucket st.bind_table (tcp_hash_function 0 0 port 0) in
    port_of h (find_sock-Searched port st b.endless b.ids)

-- All ports from one on, up to another, are in use.
unfoldable pub AllInUse : Stack → ℕ → ℕ → Type 0
AllInUse st from to = (p : ℕ) → from ≤ p → p < to → UsesPort st p

-- The outcome of the search: a free port, with all before it in use; 0, with all in use; or none, at a
-- port whose list is broken.
pub data Found (st : Stack) (from to : ℕ) : Option ℕ → Type 0 where
  at_port :
      (port : ℕ)
      → from ≤ port
      → port < to
      → (UsesPort st port → ⊥)
      → AllInUse st from port
      → Found st from to (some port)
  all_taken : AllInUse st from to → Found st from to (some 0)
  endless :
      (port : ℕ)
      → from ≤ port
      → port < to
      → IsBroken st port
      → AllInUse st from port
      → Found st from to none

before_one :
    (st : Stack) (from to : ℕ) → UsesPort st from → AllInUse st (from + 1) to → AllInUse st from to
unfolding AllInUse
before_one st from to h all p l u = elim (dec_le p from) [
  | yes e ↦ subst (UsesPort st) (let q : from ≡ p = omega arith in q) h
  | no e ↦ all p (omega arith) u
]

Found-more :
    {st : Stack} {from to : ℕ} {o : Option ℕ}
    → UsesPort st from
    → Found st (from + 1) to o
    → Found st from to o
Found-more h (at_port p l u free all) = at_port p (omega arith) u free (before_one _ _ _ h all)
Found-more h (all_taken all) = all_taken (before_one _ _ _ h all)
Found-more h (endless p l u e all) = endless p (omega arith) u e (before_one _ _ _ h all)

none_before : (st : Stack) (p to : ℕ) → to ≤ p → AllInUse st p to
unfolding AllInUse
none_before st p to h q l u = absurd (omega arith)

-- What one port decides of the search.
Found-step :
    {st : Stack} {from to : ℕ} {rest : Option ℕ} {o : Option Bool}
    → from < to
    → Used st from o
    → Found st (from + 1) to rest
    → Found st from to (elim o [ none ↦ none | some true ↦ rest | some false ↦ some from ])
Found-step {st} {from} l (used u) f = Found-more u f
Found-step {st} {from} l (unused u) f =
    at_port from (omega arith) l u (none_before st from from (omega arith))
Found-step {st} {from} l (broken b) f =
    endless from (omega arith) l b (none_before st from from (omega arith))

get_port_from-Found :
    (from left : ℕ) (st : Stack)
    → IsHashed st
    → Found st from (from + left) (get_port_from from left st)
unfolding get_port_from
get_port_from-Found from zero st h = all_taken (none_before st from (from + 0) (omega arith))
get_port_from-Found from (suc left) st h =
    Found-step (omega arith) (tcp_port_in_use-Used st from h) (
      subst (λ to. Found st (from + 1) to (get_port_from (from + 1) left st))
        (let q : from + 1 + left ≡ from + suc left = omega arith in q)
        (get_port_from-Found (from + 1) left st h))

-- Where each bound socket is in the list of its port, the port chosen for a socket that asks for none is
-- the least one from PORT_MIN on, below PORT_MAX, that no bound socket has; the result is 0 exactly if
-- bound sockets have all of them. The search does not end well only at a port whose list goes round or
-- holds a freed socket.
pub tcp_get_port-Found : (st : Stack) → IsHashed st → Found st port_min port_max (tcp_get_port st)
unfolding tcp_get_port
tcp_get_port-Found st h = get_port_from-Found port_min (port_max - port_min) st h
