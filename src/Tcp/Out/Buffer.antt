-- ===== src/Tcp/Out/Buffer.antt =====
-- What stays in the send buffer, and the retransmission timer.
use njucn_lab.Common.{
  ℕ, ◌≡◌, inl, inr, refl, ap, List, [], ◌∷◌, ◌++◌, Bool, true, false, not, Bool-cases, arith,
}
use njucn_lab.Tcp.Seq.{less_than_32b}
use njucn_lab.Tcp.Sock.{Tcp, SendBufferEntry}
use njucn_lab.Tcp.Timer.{tcp_unset_retrans_timer, tcp_update_retrans_timer}
use njucn_lab.Tcp.Out.{acknowledged, unset_if_empty, tcp_update_send_buffer}

-- Segments that start before the acknowledgement.
unfoldable pub AllBefore : ℕ → List SendBufferEntry → Type 0
AllBefore ack [] = Unit
AllBefore ack (e ∷ es) = (less_than_32b e.seq ack ≡ true) × AllBefore ack es

-- The list starts with a segment that does not, or is empty.
unfoldable pub StartsBehind : ℕ → List SendBufferEntry → Type 0
StartsBehind ack [] = Unit
StartsBehind ack (e ∷ es) = less_than_32b e.seq ack ≡ false

abbrev pub is_empty : List SendBufferEntry → Bool
is_empty [] = true
is_empty (e ∷ es) = false

-- The buffer as what goes and what stays.
pub record Split (ack : ℕ) (buf left : List SendBufferEntry) (updated : Bool) : Type 0 where
  pub gone : List SendBufferEntry
  pub parts : buf ≡ gone ++ left
  pub before : AllBefore ack gone
  pub behind : StartsBehind ack left
  pub told : updated ≡ not (is_empty gone)

acknowledged-Split :
    (ack : ℕ) (buf : List SendBufferEntry)
    → Split ack buf (acknowledged ack buf).1 (acknowledged ack buf).0
unfolding acknowledged AllBefore StartsBehind
acknowledged-Split ack [] = record {
  gone = [];
  parts = refl;
  before = tt;
  behind = tt;
  told = refl;
}
acknowledged-Split ack (e ∷ es) = elim (Bool-cases (less_than_32b e.seq ack)) [
  | inl b ↦
      let rest = acknowledged-Split ack es in
      rw b (record {
        gone = e ∷ rest.gone;
        parts = ap (◌∷◌ e) rest.parts;
        before = (b, rest.before);
        behind = rest.behind;
        told = refl;
      })
  | inr n ↦ rw n (record { gone = []; parts = refl; before = tt; behind = n; told = refl })
]

finish-send_buf :
    (es : List SendBufferEntry) (s : Tcp)
    → s.tsk.send_buf ≡ es
    → let s' = tcp_update_retrans_timer (unset_if_empty es s) in
      (s'.tsk.send_buf ≡ es)
      × (s'.sent ≡ s.sent)
      × ((es ≡ []) → s'.tsk.retrans_timer.enable ≡ false)
      × (s'.tsk.wait_send ≡ s.tsk.wait_send)
unfolding tcp_update_retrans_timer tcp_unset_retrans_timer
finish-send_buf [] s h = ground arith
finish-send_buf (e ∷ es) s h = ground arith

-- An acknowledgement takes out of the send buffer exactly its longest front of segments that start
-- before it, tells whether there were any, and sends nothing. If nothing is left the retransmission
-- timer is off; writers that wait are not woken up, in no case.
pub tcp_update_send_buffer-Split :
    (ack : ℕ) (s : Tcp)
    → let (updated, s') = tcp_update_send_buffer ack s in
      Split ack s.tsk.send_buf s'.tsk.send_buf updated
      × (s'.sent ≡ s.sent)
      × ((s'.tsk.send_buf ≡ []) → s'.tsk.retrans_timer.enable ≡ false)
      × (s'.tsk.wait_send ≡ s.tsk.wait_send)
unfolding tcp_update_send_buffer
tcp_update_send_buffer-Split ack s =
    let left = (acknowledged ack s.tsk.send_buf).1 in
    let (same, sent, off, quiet) =
      finish-send_buf left (record s { tsk = record s.tsk { send_buf = left } }) refl in
    (rw same (acknowledged-Split ack s.tsk.send_buf), sent, rw same off, quiet)
