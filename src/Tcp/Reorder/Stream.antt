-- ===== src/Tcp/Reorder/Stream.antt =====
-- Reassembly: whatever order the segments come in, the ring receives the bytes of the sender's stream
-- in their order.
use njucn_lab.Common.{
  ℕ, zero, suc, ◌+◌, ◌-◌, ◌%◌, ◌^◌, ◌<◌, ◌≡◌, ◌≢◌, ◌⊎◌, inl, inr, refl, sym, ap, ◌∙◌, subst, List,
  [], ◌∷◌, ◌++◌, append-nil, append_assoc, some, Bool-cases, length, ltb, ◌==◌, arith,
}
use njucn_lab.Tcp.RingBuffer.{RingBuffer, free}
use njucn_lab.Tcp.RingBuffer.Inv.{IsValid}
use njucn_lab.Tcp.RingBuffer.Cells.{contents}
use njucn_lab.Tcp.RingBuffer.Refine.{write_refines}
use njucn_lab.Tcp.Seq.{add32}
use njucn_lab.Tcp.Sock.{RecvOfoBufEntry}
use njucn_lab.Tcp.Reorder.{Moved, moved_to, insert_entry, move_entries}

-- The bytes of a stream from an offset on.
unfoldable pub bytes : (ℕ → ℕ) → ℕ → ℕ → List ℕ
bytes stream off zero = []
bytes stream off (suc k) = stream off ∷ bytes stream (off + 1) k

pub bytes-add :
    (stream : ℕ → ℕ) (off j k : ℕ)
    → bytes stream off (j + k) ≡ bytes stream off j ++ bytes stream (off + j) k
unfolding bytes
bytes-add stream off zero k =
    let start : 0 + k ≡ k = omega arith in
    let same : off + 0 ≡ off = omega arith in rw (start, same)
bytes-add stream off (suc j) k =
    let start : suc j + k ≡ suc (j + k) = omega arith in
    let same : off + suc j ≡ off + 1 + j = omega arith in
    rw (start, same, bytes-add stream (off + 1) j k)

-- A part of the stream, that starts with the sequence number which its offset has when the stream
-- starts at `base`.
pub record IsPart (stream : ℕ → ℕ) (base seq : ℕ) (packet : List ℕ) : Type 0 where
  pub offset : ℕ
  pub numbered : seq ≡ add32 base offset
  pub inside : offset + length packet < 2 ^ 31
  pub some_bytes : 0 < length packet
  pub read_off : packet ≡ bytes stream offset (length packet)

-- Nothing more can be moved: the list is empty, or its first entry is not next or has no room.
unfoldable pub Stopped : ℕ → RingBuffer → List RecvOfoBufEntry → Type 0
Stopped nxt ring [] = Unit
Stopped nxt ring (e ∷ es) = (e.seq ≢ nxt) ⊎ (free ring < length e.packet)

module _ (stream : ℕ → ℕ) (base : ℕ) where
  unfoldable pub AllParts : List RecvOfoBufEntry → Type 0
  AllParts [] = Unit
  AllParts (e ∷ es) = IsPart stream base e.seq e.packet × AllParts es

  pub insert_entry-AllParts :
      (new : RecvOfoBufEntry) (es : List RecvOfoBufEntry)
      → IsPart stream base new.seq new.packet
      → AllParts es
      → AllParts (insert_entry new es)
  unfolding AllParts insert_entry
  insert_entry-AllParts new [] p ps = (p, ps)
  insert_entry-AllParts new (e ∷ es) p (q, ps) = ground (arith, insert_entry-AllParts new es p ps)

  -- What the loop has done: `k` bytes from offset `n` on.
  pub record Delivered (n : ℕ) (ring : RingBuffer) (moved : ℕ) (m : Moved) : Type 0 where
    pub count : ℕ
    pub counted : m.moved ≡ moved + count
    pub next : m.rcv_nxt ≡ add32 base (n + count)
    pub small : n + count < 2 ^ 31
    pub filled : contents m.ring ≡ contents ring ++ bytes stream n count
    pub valid : IsValid m.ring
    pub parts : AllParts m.left
    pub stopped : Stopped m.rcv_nxt m.ring m.left

  nothing :
      (n : ℕ) (ring : RingBuffer) (nxt wnd moved : ℕ) (es : List RecvOfoBufEntry)
      → nxt ≡ add32 base n
      → n < 2 ^ 31
      → IsValid ring
      → AllParts es
      → Stopped nxt ring es
      → Delivered n ring moved (moved_to ring nxt wnd moved es)
  unfolding bytes
  nothing n ring nxt wnd moved es e h v ps st = record {
    count = 0;
    counted = omega arith;
    next = e ∙ ap (add32 base) (let q : n ≡ n + 0 = omega arith in q);
    small = omega arith;
    filled = sym (append-nil (contents ring));
    valid = v;
    parts = ps;
    stopped = st;
  }

  more :
      {ring ring' : RingBuffer} {moved n : ℕ} {m : Moved} (k : ℕ) (packet : List ℕ)
      → packet ≡ bytes stream n k
      → contents ring' ≡ contents ring ++ packet
      → Delivered (n + k) ring' (moved + k) m
      → Delivered n ring moved m
  more {ring} {n = n} k packet pe ce d = record {
    count = k + d.count;
    counted = omega (arith, d.counted);
    next =
        d.next ∙ ap (add32 base) (let q : n + k + d.count ≡ n + (k + d.count) = omega arith in q);
    small = omega (arith, d.small);
    filled =
        d.filled
        ∙ ap (λ c. c ++ bytes stream (n + k) d.count) (ce ∙ ap (λ p. contents ring ++ p) pe)
        ∙ append_assoc (contents ring) (bytes stream n k) (bytes stream (n + k) d.count)
        ∙ ap (λ b. contents ring ++ b) (sym (bytes-add stream n k d.count));
    valid = d.valid;
    parts = d.parts;
    stopped = d.stopped;
  }

  pub move_entries-Delivered :
      (es : List RecvOfoBufEntry) (ring : RingBuffer) (n nxt wnd moved : ℕ)
      → base < 2 ^ 32
      → nxt ≡ add32 base n
      → n < 2 ^ 31
      → IsValid ring
      → AllParts es
      → (m : Moved) × (move_entries es ring nxt wnd moved ≡ some m) × Delivered n ring moved m
  unfolding move_entries AllParts Stopped
  move_entries-Delivered [] ring n nxt wnd moved hb e h v ps =
      (moved_to ring nxt wnd moved [], refl, nothing n ring nxt wnd moved [] e h v ps tt)
  move_entries-Delivered (x ∷ es) ring n nxt wnd moved hb e h v (p, ps) =
      elim (Bool-cases (x.seq == nxt)) [
        | inr far ↦ (
          moved_to ring nxt wnd moved (x ∷ es),
          rw far,
          nothing n ring nxt wnd moved (x ∷ es) e h v (p, ps) (inl (ground arith)),
        )
        | inl here ↦ elim (Bool-cases (ltb (free ring) (length x.packet))) [
          | inl full ↦ (
            moved_to ring nxt wnd moved (x ∷ es),
            rw (here, full),
            nothing n ring nxt wnd moved (x ∷ es) e h v (p, ps) (inr (ground arith)),
          )
          | inr room ↦ elim (write_refines x.packet v) [
            | inr (lacking, _) ↦ absurd (ground (arith, p.some_bytes))
            | inl (_, _, (ring', w, c, _, v')) ↦
                let at : p.offset ≡ n = ground (arith, p.numbered, p.inside) in
                let len = length x.packet in
                let (m, run, d) =
                  move_entries-Delivered es ring' (n + len) (add32 nxt len)
                    ((wnd + (2 ^ 16 - len % 2 ^ 16)) % 2 ^ 16) (moved + len) hb (omega (arith, e))
                    (omega (arith, p.inside)) v' ps in
                (
                  m,
                  rw (here, room, w, run),
                  more len x.packet (subst (λ o. x.packet ≡ bytes stream o len) at p.read_off) c d,
                )
          ]
        ]
      ]
