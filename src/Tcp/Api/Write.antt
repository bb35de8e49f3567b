-- ===== src/Tcp/Api/Write.antt =====
-- What tcp_sock_write puts on the wire.
use njucn_lab.Common.{
  ℕ, zero, suc, ◌≤◌, ◌<◌, min, ◌≡◌, ◌⊎◌, inl, inr, refl, sym, ap, subst, ◌∙◌, List, [], ◌∷◌, ◌++◌,
  append-nil, append_assoc, some, true, false, Bool-cases, length, length-take, length-drop, take,
  drop, take-append-drop, arith,
}
use njucn_lab.Tcp.Seq.{add32}
use njucn_lab.Tcp.Sock.{Tcp, TcpSock, Segment, tcp_mss}
use njucn_lab.Tcp.Timer.{tcp_set_retrans_timer}
use njucn_lab.Tcp.Out.{segment, psh_ack, tcp_send_packet, tcp_send_buffer_add_packet}
use njucn_lab.Tcp.Congestion.{tcp_tx_window_test}
use njucn_lab.Tcp.Api.{send_len, write_round, write_rounds, may_write, tcp_sock_write}

unfoldable pub joined : List (List ℕ) → List ℕ
joined [] = []
joined (c ∷ cs) = c ++ joined cs

-- Chunks as segments with one sequence number after the other.
unfoldable pub segments : TcpSock → ℕ → List (List ℕ) → List Segment
segments tsk seq [] = []
segments tsk seq (c ∷ cs) = segment tsk seq psh_ack c ∷ segments tsk (add32 seq (length c)) cs

unfoldable pub AllFit : ℕ → List (List ℕ) → Type 0
AllFit wnd [] = Unit
AllFit wnd (c ∷ cs) = (0 < length c) × (length c ≤ min wnd tcp_mss) × AllFit wnd cs

-- The chunks in which a buffer went out: they make up what is not left, fit the window and a
-- segment, and went out in order; nothing is left, or the window is closed.
pub record Written (rest : List ℕ) (s : Tcp) (left : List ℕ) (s' : Tcp) : Type 0 where
  pub chunks : List (List ℕ)
  pub whole : joined chunks ++ left ≡ rest
  pub fit : AllFit s.tsk.snd_wnd chunks
  pub wire : s'.sent ≡ s.sent ++ segments s.tsk s.tsk.snd_nxt chunks
  pub ended : (left ≡ []) ⊎ (tcp_tx_window_test s'.tsk ≡ false)

-- What one round does.
pub record Round (rest : List ℕ) (s s' : Tcp) : Type 0 where
  pub sends :
      s'.sent
      ≡ s.sent ++ (segment s.tsk s.tsk.snd_nxt psh_ack (take (send_len s.tsk rest) rest) ∷ [])
  pub advances : s'.tsk.snd_nxt ≡ add32 s.tsk.snd_nxt (length (take (send_len s.tsk rest) rest))
  pub window : s'.tsk.snd_wnd ≡ s.tsk.snd_wnd
  pub alike :
      (seq flags : ℕ) (payload : List ℕ)
      → segment s'.tsk seq flags payload ≡ segment s.tsk seq flags payload

write_round-Round : (buf rest : List ℕ) (s : Tcp) → Round rest s (write_round buf rest s)
unfolding write_round tcp_send_packet tcp_send_buffer_add_packet tcp_set_retrans_timer segment
write_round-Round buf rest s = elim (Bool-cases s.tsk.retrans_timer.enable) [
  | inl e ↦ rw e (record { sends = refl; advances = refl; window = refl; alike = λ a b c. refl })
  | inr e ↦ rw e (record { sends = refl; advances = refl; window = refl; alike = λ a b c. refl })
]

segments-alike :
    (a b : TcpSock) (seq : ℕ) (cs : List (List ℕ))
    → ((q flags : ℕ) (payload : List ℕ) → segment a q flags payload ≡ segment b q flags payload)
    → segments a seq cs ≡ segments b seq cs
unfolding segments
segments-alike a b seq [] h = refl
segments-alike a b seq (c ∷ cs) h =
    rw (h seq psh_ack c, segments-alike a b (add32 seq (length c)) cs h)

add_chunk :
    {s s1 s' : Tcp} {left : List ℕ} (rest : List ℕ)
    → 0 < s.tsk.snd_wnd
    → 0 < length rest
    → Round rest s s1
    → Written (drop (send_len s.tsk rest) rest) s1 left s'
    → Written rest s left s'
unfolding joined segments AllFit
add_chunk {s} {s1} {s'} {left} rest w l r d =
    let c = take (send_len s.tsk rest) rest in
    record {
      chunks = c ∷ d.chunks;
      whole =
          append_assoc c (joined d.chunks) left
          ∙ ap (λ t. c ++ t) d.whole
          ∙ take-append-drop (send_len s.tsk rest) rest;
      fit = (
        omega (arith, length-take (send_len s.tsk rest) rest),
        omega (arith, length-take (send_len s.tsk rest) rest),
        subst (λ q. AllFit q d.chunks) r.window d.fit,
      );
      wire =
          d.wire
          ∙ ap (λ t. s1.sent ++ t) (segments-alike s1.tsk s.tsk s1.tsk.snd_nxt d.chunks r.alike)
          ∙ ap (λ n. s1.sent ++ segments s.tsk n d.chunks) r.advances
          ∙ ap (λ t. t ++ segments s.tsk (add32 s.tsk.snd_nxt (length c)) d.chunks) r.sends
          ∙ append_assoc s.sent (segment s.tsk s.tsk.snd_nxt psh_ack c ∷ [])
              (segments s.tsk (add32 s.tsk.snd_nxt (length c)) d.chunks);
      ended = d.ended;
    }

write_rounds-Written :
    (fuel : ℕ) (buf rest : List ℕ) (s : Tcp)
    → 0 < s.tsk.snd_wnd
    → length rest ≤ fuel
    → (left : List ℕ) × (s' : Tcp) × (write_rounds fuel buf rest s ≡ some (left, s'))
      × Written rest s left s'
unfolding write_rounds joined segments AllFit
write_rounds-Written fuel buf [] s w h = (
  [],
  s,
  refl,
  record { chunks = []; whole = refl; fit = tt; wire = sym (append-nil s.sent); ended = inl refl },
)
write_rounds-Written zero buf (b ∷ rest) s w h = absurd (omega arith)
write_rounds-Written (suc fuel) buf (b ∷ rest) s w h =
    elim (Bool-cases (tcp_tx_window_test s.tsk)) [
      | inr e ↦ (
        b ∷ rest,
        s,
        rw e,
        record {
          chunks = [];
          whole = refl;
          fit = tt;
          wire = sym (append-nil s.sent);
          ended = inr e;
        },
      )
      | inl e ↦
          let r = write_round-Round buf (b ∷ rest) s in
          let n = send_len s.tsk (b ∷ rest) in
          let (left, s', run, d) =
            write_rounds-Written fuel buf (drop n (b ∷ rest)) (write_round buf (b ∷ rest) s)
              (omega (arith, r.window)) (omega (arith, length-drop n (b ∷ rest))) in
          (left, s', rw (e, run), add_chunk (b ∷ rest) w (omega arith) r d)
    ]

-- With a send window that is not zero a write ends or sleeps after finitely many rounds. Until then it
-- has sent the bytes of the buffer in order, each once, in segments that hold at least a byte, fit
-- the window and the maximal segment size, and carry consecutive sequence numbers; it sleeps only
-- when the window test fails. A socket that is not connected sends nothing.
pub tcp_sock_write-Written :
    (buf : List ℕ) (s : Tcp)
    → 0 < s.tsk.snd_wnd
    → ((may_write s.tsk.state ≡ true)
        × ((left : List ℕ) × (s' : Tcp) × (tcp_sock_write buf s ≡ some (true, left, s'))
            × Written buf s left s'))
      ⊎ ((may_write s.tsk.state ≡ false) × (tcp_sock_write buf s ≡ some (false, buf, s)))
unfolding tcp_sock_write
tcp_sock_write-Written buf s w = elim (Bool-cases (may_write s.tsk.state)) [
  | inl e ↦
      let (left, s', run, d) = write_rounds-Written (length buf) buf buf s w (omega arith) in
      inl (e, (left, s', rw (e, run), d))
  | inr e ↦ inr (e, rw e)
]
