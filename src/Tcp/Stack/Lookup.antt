-- ===== src/Tcp/Stack/Lookup.antt =====
-- Work on one socket leaves the others alone.
use njucn_lab.Common.{
  ℕ, zero, suc, ◌<◌, ◌≡◌, ◌≢◌, List, [], ◌∷◌, Option, none, some, length, get_or, get_or-set_self,
  get_or-set_ne, arith, Option-cases, inl, inr, sym,
}
use njucn_lab.Tcp.Sock.{Tcp, TcpSock}
use njucn_lab.Tcp.Stack.{Stack, sock, on}

get_or-some {ℓ} :
    {A : Type ℓ} (xs : List (Option A)) (i : ℕ) (a : A) → get_or xs i none ≡ some a → i < length xs
get_or-some [] i a h = absurd (ground arith)
get_or-some (x ∷ xs) zero a h = omega arith
get_or-some (x ∷ xs) (suc i) a h = omega (arith, get_or-some xs i a h)

abbrev pub focus : ℕ → TcpSock → Stack → Tcp
focus id tsk st = record { id = id; tsk = tsk; timer_list = st.timer_list; sent = st.sent }

pub sock-on_self :
    {tsk : TcpSock} (id : ℕ) (f : Tcp → Tcp) (st : Stack)
    → sock st id ≡ some tsk
    → sock (on id f st) id ≡ some (f (focus id tsk st)).tsk
unfolding on
sock-on_self {tsk} id f st h =
    rw (on, h)
      (get_or-set_self st.socks id (some (f (focus id tsk st)).tsk) none
        (get_or-some st.socks id tsk h))

pub sock-on_other :
    (id j : ℕ) (f : Tcp → Tcp) (st : Stack) → j ≢ id → sock (on id f st) j ≡ sock st j
unfolding on
sock-on_other id j f st ne = elim (Option-cases (sock st id)) [
  | inl e ↦ rw (on, e)
  | inr (tsk, e) ↦
      rw (on, e)
        (get_or-set_ne st.socks id j (some (f (focus id tsk st)).tsk) none (λ q. ne (sym q)))
]

pub on-listen_table :
    (id : ℕ) (f : Tcp → Tcp) (st : Stack) → (on id f st).listen_table ≡ st.listen_table
unfolding on
on-listen_table id f st = elim (Option-cases (sock st id)) [
  | inl e ↦ rw (on, e)
  | inr (tsk, e) ↦ rw (on, e)
]
