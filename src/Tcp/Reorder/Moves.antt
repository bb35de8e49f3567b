-- ===== src/Tcp/Reorder/Moves.antt =====
-- tcp_move_recv_ofo_buffer of code-exp2/tcp_in.c on a stream that is cut into segments.
use mathlib.Core.List.{Memᴰ}
use mathlib.Core.List.Memᴰ.{cases_cons}
use njucn_lab.Common.{
  ℕ, suc, ◌+◌, ◌-◌, ◌%◌, ◌^◌, ◌≤◌, ◌<◌, ◌≡◌, ◌⊎◌, inl, inr, refl, sym, ap, ◌∙◌, subst, List, [],
  ◌∷◌, ◌++◌, append-nil, append_assoc, map, some, true, false, Bool-cases, length, ltb, ◌==◌, arith,
}
use njucn_lab.Tcp.RingBuffer.{RingBuffer, free, write}
use njucn_lab.Tcp.RingBuffer.Inv.{IsValid}
use njucn_lab.Tcp.RingBuffer.Cells.{contents}
use njucn_lab.Tcp.RingBuffer.Refine.{write_refines}
use njucn_lab.Tcp.Seq.{add32}
use njucn_lab.Tcp.Sock.{Tcp, RecvOfoBufEntry}
use njucn_lab.Tcp.Out.{tcp_send_control_packet}
use njucn_lab.Tcp.Reorder.{Moved, moved_to, move_entries, store_moved}
use njucn_lab.Tcp.Reorder.Stream.{bytes, bytes-add}
use njucn_lab.Tcp.Reorder.Cuts.{
  IsCut, Rising, Rising-member, length-bytes, size, entry, cut_le, cut_lt, same_place,
}

pub bytes-join :
    (stream : ℕ → ℕ) (a b d : ℕ)
    → a ≤ b
    → b ≤ d
    → bytes stream a (b - a) ++ bytes stream b (d - b) ≡ bytes stream a (d - a)
bytes-join stream a b d h k =
    ap (λ o. bytes stream a (b - a) ++ bytes stream o (d - b))
      (let q : b ≡ a + (b - a) = omega (arith, h) in q)
    ∙ sym (bytes-add stream a (b - a) (d - b))
    ∙ ap (bytes stream a) (let q : b - a + (d - b) ≡ d - a = omega (arith, h, k) in q)

-- An entry that is moved.
move_entries-next :
    (e : RecvOfoBufEntry) (es : List RecvOfoBufEntry) (ring ring' : RingBuffer) (nxt wnd moved : ℕ)
    (m : Moved)
    → (e.seq == nxt) ≡ true
    → ltb (free ring) (length e.packet) ≡ false
    → write ring e.packet ≡ some ring'
    → let len = length e.packet in
      move_entries es ring' (add32 nxt len) ((wnd + (2 ^ 16 - len % 2 ^ 16)) % 2 ^ 16) (moved + len)
        ≡ some m
      → move_entries (e ∷ es) ring nxt wnd moved ≡ some m
unfolding move_entries
move_entries-next e es ring ring' nxt wnd moved m h room w run = rw (h, room, w) run

-- What the loop has changed is stored.
pub store_moved-tsk :
    (m : Moved) (s : Tcp)
    → let tsk = (store_moved m s).tsk in
      (tsk.rcv_buf ≡ m.ring) × (tsk.rcv_nxt ≡ m.rcv_nxt) × (tsk.rcv_ofo_buf ≡ m.left)
unfolding store_moved tcp_send_control_packet
store_moved-tsk m s = elim (Bool-cases (m.moved == 0)) [
  | inl e ↦ rw e (refl, refl, refl)
  | inr e ↦ rw e (refl, refl, refl)
]

module _ (stream : ℕ → ℕ) (base : ℕ) (cut : ℕ → ℕ) (total : ℕ) where
  -- All segments before place `j` are delivered, and those at `js` wait.
  pub record Holds (j : ℕ) (js : List ℕ) (ring : RingBuffer) (nxt : ℕ) (es : List RecvOfoBufEntry)
      : Type 0 where
    pub inside : j ≤ total
    pub next : nxt ≡ add32 base (cut j)
    pub valid : IsValid ring
    pub entries : es ≡ map (entry stream base cut) js
    pub ordered : Rising total j js

  -- From place `j` with `js` waiting to another place, when `is` arrive: the bytes between are delivered,
  -- each of those segments is delivered or waits, and the one that is next waits only for room.
  pub record Goes (j : ℕ) (is js : List ℕ) (ring ring' : RingBuffer) (nxt' : ℕ)
      (es : List RecvOfoBufEntry) : Type 0 where
    pub place : ℕ
    pub left : List ℕ
    pub forward : j ≤ place
    pub holds : Holds place left ring' nxt' es
    pub filled : contents ring' ≡ contents ring ++ bytes stream (cut j) (cut place - cut j)
    pub arrived : (k : ℕ) → Memᴰ k is → (k < place) ⊎ Memᴰ k left
    pub kept : (k : ℕ) → Memᴰ k js → (k < place) ⊎ Memᴰ k left
    pub blocked : Memᴰ place left → free ring' < size stream base cut place

  pub stays :
      {j nxt : ℕ} {js : List ℕ} {ring : RingBuffer} {es : List RecvOfoBufEntry}
      → Holds j js ring nxt es
      → (Memᴰ j js → free ring < size stream base cut j)
      → Goes j [] js ring ring nxt es
  unfolding bytes
  stays {j} {js = js} {ring = ring} h b = record {
    place = j;
    left = js;
    forward = omega arith;
    holds = h;
    filled =
        sym (append-nil (contents ring))
        ∙ ap (λ n. contents ring ++ bytes stream (cut j) n)
            (let q : 0 ≡ cut j - cut j = omega arith in q);
    arrived = λ k m. elim m [ ];
    kept = λ k m. inr m;
    blocked = b;
  }

  module _ (c : IsCut base cut total) where
    -- One segment is moved, and then others.
    moves_on :
        {j nxt' : ℕ} {js : List ℕ} {ring ring1 ring' : RingBuffer} {es : List RecvOfoBufEntry}
        → j < total
        → contents ring1 ≡ contents ring ++ bytes stream (cut j) (size stream base cut j)
        → Goes (suc j) [] js ring1 ring' nxt' es
        → Goes j [] (j ∷ js) ring ring' nxt' es
    moves_on {j} {ring = ring} l e g =
        let up = cut_lt stream base cut total c j (suc j) (omega arith) (omega (arith, l)) in
        let up' = cut_le stream base cut total c (suc j) g.place g.forward g.holds.inside in
        record {
          place = g.place;
          left = g.left;
          forward = omega (arith, g.forward);
          holds = g.holds;
          filled =
              g.filled
              ∙ ap (λ x. x ++ bytes stream (cut (suc j)) (cut g.place - cut (suc j))) e
              ∙ append_assoc (contents ring) _ _
              ∙ ap (λ x. contents ring ++ x)
                  (bytes-join stream (cut j) (cut (suc j)) (cut g.place) (omega (arith, up)) up');
          arrived = λ k m. elim m [ ];
          kept = λ k m. elim (cases_cons m) [
            | inl q ↦ inl (omega (arith, q, g.forward))
            | inr m' ↦ g.kept k m'
          ];
          blocked = g.blocked;
        }

    pub move_entries-Goes :
        (js : List ℕ) (j : ℕ) (ring : RingBuffer) (nxt wnd moved : ℕ)
        → Holds j js ring nxt (map (entry stream base cut) js)
        → (m : Moved) × (move_entries (map (entry stream base cut) js) ring nxt wnd moved ≡ some m)
          × Goes j [] js ring m.ring m.rcv_nxt m.left
    unfolding move_entries Rising
    move_entries-Goes [] j ring nxt wnd moved h =
        (moved_to ring nxt wnd moved [], refl, stays h (λ m. elim m [ ]))
    move_entries-Goes (x ∷ js) j ring nxt wnd moved h =
        let (l, u, r) = h.ordered in
        let len = size stream base cut x in
        let all : List RecvOfoBufEntry = map (entry stream base cut) (x ∷ js) in
        let same : (add32 base (cut x) == nxt) ≡ (x == j) =
          ap (λ k. add32 base (cut x) == k) h.next
          ∙ same_place stream base cut total c x j (omega (arith, u)) h.inside in
        let long = length-bytes stream (cut x) len in
        elim (Bool-cases (x == j)) [
          | inr far ↦ (
            moved_to ring nxt wnd moved all,
            rw (same, far) refl,
            stays h (λ m. elim (cases_cons m) [
              | inl q ↦ absurd (ground (arith, far, q))
              | inr m' ↦
                  let (low, _) = Rising-member total (suc x) j js r m' in
                  absurd (omega (arith, low, l))
            ]),
          )
          | inl here ↦
              let at : x ≡ j = ground (arith, here) in
              elim (Bool-cases (ltb (free ring) len)) [
                | inl full ↦ (
                  moved_to ring nxt wnd moved all,
                  rw (same, here, long, full) refl,
                  stays h (λ m.
                      subst (λ k. free ring < size stream base cut k) at (ground (arith, full))),
                )
                | inr room ↦ elim (write_refines (bytes stream (cut x) len) h.valid) [
                  | inr (lacking, _) ↦ absurd (ground (arith, room, long, c.rising x u, lacking))
                  | inl (_, _, (ring', w, e, _, v')) ↦
                      let len' = length (bytes stream (cut x) len) in
                      let (m, run, g) =
                        move_entries-Goes js (suc j) ring' (add32 nxt len')
                          ((wnd + (2 ^ 16 - len' % 2 ^ 16)) % 2 ^ 16) (moved + len')
                          (record {
                            inside = omega (arith, at, u);
                            next = omega (
                              arith,
                              h.next,
                              long,
                              ap cut at,
                              ap (λ k. cut (suc k)) at,
                              c.rising x u,
                            );
                            valid = v';
                            entries = refl;
                            ordered = subst (λ k. Rising total (suc k) js) at r;
                          }) in
                      (
                        m,
                        move_entries-next (entry stream base cut x) (map (entry stream base cut) js)
                            ring ring' nxt wnd moved m (same ∙ here)
                            (ap (ltb (free ring)) long ∙ room) w run,
                        subst (λ k. Goes j [] (k ∷ js) ring m.ring m.rcv_nxt m.left) (sym at)
                            (moves_on (omega (arith, at, u))
                              (subst
                                (λ k.
                                  contents ring'
                                  ≡ contents ring ++ bytes stream (cut k) (size stream base cut k))
                                at e)
                              g),
                      )
                ]
              ]
        ]
