-- ===== src/Tcp/Timer/Linked.antt =====
-- A timer is in the global list exactly if it is enabled.
use njucn_lab.Common.{
  ℕ, suc, ◌+◌, ◌-◌, ◌≡◌, inl, inr, refl, ap, List, [], ◌∷◌, ◌++◌, Bool, true, false, Bool-cases,
  ◌==◌, ◌&&◌, if◌then◌else◌, arith,
}
use njucn_lab.Tcp.Sock.{Tcp, TimerType, timewait, retrans, persist}
use njucn_lab.Tcp.Timer.{
  same_type, list_delete_entry, tcp_set_persist_timer, tcp_unset_persist_timer,
  tcp_set_retrans_timer, tcp_unset_retrans_timer, tcp_update_retrans_timer, wake_send,
}

-- How often a socket's timer is in the list.
unfoldable pub count : ℕ → TimerType → List (ℕ × TimerType) → ℕ
count id type [] = 0
count id type (t ∷ ts) =
    let rest = count id type ts in if (t.0 == id) && same_type t.1 type then suc rest else rest

count-append :
    (id : ℕ) (type : TimerType) (xs ys : List (ℕ × TimerType))
    → count id type (xs ++ ys) ≡ count id type xs + count id type ys
unfolding count
count-append id type [] ys = omega arith
count-append id type (x ∷ xs) ys = ground (arith, count-append id type xs ys)

count-delete :
    (id : ℕ) (type : TimerType) (xs : List (ℕ × TimerType))
    → count id type (list_delete_entry id type xs) ≡ count id type xs - 1
unfolding count list_delete_entry
count-delete id type [] = omega arith
count-delete id type (x ∷ xs) = ground (arith, count-delete id type xs)

same_type_sound : (a b : TimerType) → same_type a b ≡ true → a ≡ b
same_type_sound timewait timewait h = refl
same_type_sound timewait retrans h = ground arith
same_type_sound timewait persist h = ground arith
same_type_sound retrans timewait h = ground arith
same_type_sound retrans retrans h = refl
same_type_sound retrans persist h = ground arith
same_type_sound persist timewait h = ground arith
same_type_sound persist retrans h = ground arith
same_type_sound persist persist h = refl

-- Deleting one timer does not touch another.
count-delete_ne :
    (id : ℕ) (a b : TimerType) (xs : List (ℕ × TimerType))
    → same_type a b ≡ false
    → same_type b a ≡ false
    → count id a (list_delete_entry id b xs) ≡ count id a xs
unfolding count list_delete_entry
count-delete_ne id a b [] h h' = refl
count-delete_ne id a b (x ∷ xs) h h' = elim (Bool-cases (same_type x.1 b)) [
  | inl e ↦
      ground (
        arith,
        ap (λ t. same_type t a) (same_type_sound x.1 b e),
        h',
        count-delete_ne id a b xs h h',
      )
  | inr e ↦ ground (arith, count-delete_ne id a b xs h h')
]

abbrev pub bit : Bool → ℕ
bit true = 1
bit false = 0

-- Both timers of the socket are in the list once if they are enabled, and else not at all.
pub record IsLinked (s : Tcp) : Type 0 where
  pub retrans_linked : count s.id retrans s.timer_list ≡ bit s.tsk.retrans_timer.enable
  pub persist_linked : count s.id persist s.timer_list ≡ bit s.tsk.persist_timer.enable

pub set_retrans-IsLinked : (s : Tcp) → IsLinked s → IsLinked (tcp_set_retrans_timer s)
unfolding tcp_set_retrans_timer count
set_retrans-IsLinked s l = ground (
  arith,
  l,
  count-append s.id retrans s.timer_list ((s.id, retrans) ∷ []),
  count-append s.id persist s.timer_list ((s.id, retrans) ∷ []),
)

pub unset_retrans-IsLinked : (s : Tcp) → IsLinked s → IsLinked (tcp_unset_retrans_timer s)
unfolding tcp_unset_retrans_timer
unset_retrans-IsLinked s l = ground (
  arith,
  l,
  count-delete s.id retrans s.timer_list,
  count-delete_ne s.id persist retrans s.timer_list refl refl,
)

pub set_persist-IsLinked : (s : Tcp) → IsLinked s → IsLinked (tcp_set_persist_timer s)
unfolding tcp_set_persist_timer count
set_persist-IsLinked s l = ground (
  arith,
  l,
  count-append s.id retrans s.timer_list ((s.id, persist) ∷ []),
  count-append s.id persist s.timer_list ((s.id, persist) ∷ []),
)

pub unset_persist-IsLinked : (s : Tcp) → IsLinked s → IsLinked (tcp_unset_persist_timer s)
unfolding tcp_unset_persist_timer
unset_persist-IsLinked s l = ground (
  arith,
  l,
  count-delete s.id persist s.timer_list,
  count-delete_ne s.id retrans persist s.timer_list refl refl,
)

pub update_retrans-IsLinked : (s : Tcp) → IsLinked s → IsLinked (tcp_update_retrans_timer s)
unfolding tcp_update_retrans_timer wake_send
update_retrans-IsLinked s l = ground (arith, l, unset_retrans-IsLinked s l)

-- Whichever way a socket's retransmission and persist timers are set, unset or updated, each stays in
-- the global list once if it is enabled, and is not in the list if it is not, if that was so before.
pub timers-IsLinked :
    (s : Tcp)
    → IsLinked s
    → IsLinked (tcp_set_retrans_timer s)
      × IsLinked (tcp_unset_retrans_timer s)
      × IsLinked (tcp_update_retrans_timer s)
      × IsLinked (tcp_set_persist_timer s)
      × IsLinked (tcp_unset_persist_timer s)
timers-IsLinked s l = (
  set_retrans-IsLinked s l,
  unset_retrans-IsLinked s l,
  update_retrans-IsLinked s l,
  set_persist-IsLinked s l,
  unset_persist-IsLinked s l,
)
