-- ===== src/Tcp/RingBuffer/Cells.antt =====
-- The bytes that a ring holds, oldest first, and how the copies of ring_buffer.h move its cells.
use native.Mathlib.Decide.{dec_lt}
use native.Mathlib.Nat.{mod-add-mod}
use njucn_lab.Common.{
  ℕ, ◌+◌, ◌-◌, ◌%◌, ◌≤◌, ◌<◌, ◌≡◌, sym, ap, ◌∙◌, ◌⊎◌, inl, inr, List, ◌++◌, length, length-take,
  length-drop, length-append, take, drop, get_or, slice, tabulate, length-tabulate, length-slice,
  get_or-slice, get_or-take, get_or-drop, get_or-tabulate, get_or-append_left, get_or-append_right,
  get_or-blit_cases, length-blit, list_ext, mod_small, mod_once, arith, blit,
}
use njucn_lab.Tcp.RingBuffer.{RingBuffer, used, free, copied_out, copied_in}
use njucn_lab.Tcp.RingBuffer.Inv.{IsValid, used_cases, used-lt, used-add-free, length-copied_in}

-- The index of the `i`-th byte behind `base`.
abbrev pub slot : RingBuffer → ℕ → ℕ → ℕ
slot r base i = (base + i) % r.size

pub slot_cases :
    (r : RingBuffer) (base i : ℕ)
    → base < r.size
    → i < r.size
    → ((base + i < r.size) × (slot r base i ≡ base + i))
      ⊎ ((r.size ≤ base + i) × (slot r base i ≡ base + i - r.size))
slot_cases r base i hb hi = elim (dec_lt (base + i) r.size) [
  | yes h ↦ inl (h, mod_small (base + i) r.size h)
  | no h ↦ inr (omega arith, mod_once (base + i) r.size (omega arith) (omega arith))
]

abbrev pub contents : RingBuffer → List ℕ
contents r = tabulate (used r) (λ i. get_or r.buf (slot r r.head i) 0)

pub length-contents : (r : RingBuffer) → length (contents r) ≡ used r
length-contents r = length-tabulate (used r) (λ i. get_or r.buf (slot r r.head i) 0)

pub get_or-contents :
    (r : RingBuffer) (i : ℕ)
    → i < used r
    → get_or (contents r) i 0 ≡ get_or r.buf (slot r r.head i) 0
get_or-contents r i h = get_or-tabulate (used r) (λ i. get_or r.buf (slot r r.head i) 0) i 0 h

module _ {r : RingBuffer} (v : IsValid r) where
  length-copied_out : (len : ℕ) → len ≤ used r → length (copied_out r len) ≡ len
  unfolding copied_out
  length-copied_out len h = ground (
    arith,
    used-lt v,
    length-append (slice r.buf r.head (r.size - r.head)) (slice r.buf 0 (len - (r.size - r.head))),
    length-slice r.buf r.head (r.size - r.head),
    length-slice r.buf 0 (len - (r.size - r.head)),
    length-slice r.buf r.head len,
  )

  -- The copies bring out the cells in turn, also where they go round the end.
  get_or-copied_out :
      (len i : ℕ)
      → len ≤ used r
      → i < len
      → get_or (copied_out r len) i 0 ≡ get_or r.buf (slot r r.head i) 0
  unfolding copied_out
  get_or-copied_out len i h hi = ground (
    arith,
    used-lt v,
    slot_cases r r.head i,
    length-slice r.buf r.head (r.size - r.head),
    get_or-append_left (slice r.buf r.head (r.size - r.head))
        (slice r.buf 0 (len - (r.size - r.head))) i 0,
    get_or-append_right (slice r.buf r.head (r.size - r.head))
        (slice r.buf 0 (len - (r.size - r.head))) i (i - (r.size - r.head)) 0,
    get_or-slice r.buf r.head (r.size - r.head) i 0,
    get_or-slice r.buf 0 (len - (r.size - r.head)) (i - (r.size - r.head)) 0,
    get_or-slice r.buf r.head len i 0,
  )

  pub copied_out-contents : (len : ℕ) → len ≤ used r → copied_out r len ≡ take len (contents r)
  copied_out-contents len h =
      list_ext _ _ 0
        (omega (arith, length-copied_out len h, length-take len (contents r), length-contents r))
        (λ i p.
          let q : i < len = omega (arith, length-copied_out len h) in
          get_or-copied_out len i h q
          ∙ sym (get_or-take len (contents r) i 0 q ∙ get_or-contents r i (omega arith)))

  abbrev pub advanced : ℕ → RingBuffer
  advanced len = record r { head = (r.head + len) % r.size }

  pub used-advanced : (len : ℕ) → len ≤ used r → used (advanced len) ≡ used r - len
  used-advanced len h = ground (
    arith,
    used-lt v,
    used_cases v,
    used_cases {r = advanced len} advanced_valid,
    slot_cases r r.head len,
  )
    where
      advanced_valid : IsValid (advanced len)
      advanced_valid = record {
        head_in = omega (arith, v.head_in);
        tail_in = v.tail_in;
        storage = v.storage;
      }

  -- Moving the head on forgets the oldest bytes.
  pub contents-advanced : (len : ℕ) → len ≤ used r → contents (advanced len) ≡ drop len (contents r)
  contents-advanced len h =
      list_ext _ _ 0
        (omega (
          arith,
          length-contents (advanced len),
          used-advanced len h,
          length-drop len (contents r),
          length-contents r,
        ))
        (λ i p.
          let q : i < used r - len =
            omega (arith, length-contents (advanced len), used-advanced len h) in
          get_or-contents (advanced len) i (omega (arith, used-advanced len h))
          ∙ ap (λ k. get_or r.buf k 0) (turn i)
          ∙ sym (get_or-drop len (contents r) i 0 ∙ get_or-contents r (len + i) (omega arith)))
    where
      turn : (i : ℕ) → ((r.head + len) % r.size + i) % r.size ≡ (r.head + (len + i)) % r.size
      turn i = mod-add-mod (r.head + len) r.size i ∙ ap (λ k. k % r.size) (omega arith)

  -- Writing puts the new bytes into the free cells in turn.
  pub get_or-copied_in_new :
      (bytes : List ℕ) (k : ℕ)
      → length bytes ≤ free r
      → k < length bytes
      → get_or (copied_in r bytes) (slot r r.tail k) 0 ≡ get_or bytes k 0
  unfolding copied_in
  get_or-copied_in_new bytes k h hk = ground (
    arith,
    v.storage,
    used_cases v,
    used-add-free v,
    slot_cases r r.tail k,
    length-take (r.size - r.tail) bytes,
    length-drop (r.size - r.tail) bytes,
    length-blit r.buf r.tail (take (r.size - r.tail) bytes),
    get_or-blit_cases r.buf r.tail (take (r.size - r.tail) bytes) (slot r r.tail k) 0,
    get_or-blit_cases (blit r.buf r.tail (take (r.size - r.tail) bytes)) 0
        (drop (r.size - r.tail) bytes) (slot r r.tail k) 0,
    get_or-blit_cases r.buf r.tail bytes (slot r r.tail k) 0,
    get_or-take (r.size - r.tail) bytes (slot r r.tail k - r.tail) 0,
    get_or-drop (r.size - r.tail) bytes (slot r r.tail k) 0,
  )

  -- It keeps the cells of the bytes that are held.
  pub get_or-copied_in_old :
      (bytes : List ℕ) (i : ℕ)
      → length bytes ≤ free r
      → i < used r
      → get_or (copied_in r bytes) (slot r r.head i) 0 ≡ get_or r.buf (slot r r.head i) 0
  unfolding copied_in
  get_or-copied_in_old bytes i h hi = ground (
    arith,
    v.storage,
    used_cases v,
    used-add-free v,
    slot_cases r r.head i,
    length-take (r.size - r.tail) bytes,
    length-drop (r.size - r.tail) bytes,
    length-blit r.buf r.tail (take (r.size - r.tail) bytes),
    get_or-blit_cases r.buf r.tail (take (r.size - r.tail) bytes) (slot r r.head i) 0,
    get_or-blit_cases (blit r.buf r.tail (take (r.size - r.tail) bytes)) 0
        (drop (r.size - r.tail) bytes) (slot r r.head i) 0,
    get_or-blit_cases r.buf r.tail bytes (slot r r.head i) 0,
  )

  abbrev pub extended : List ℕ → RingBuffer
  extended bytes = record r { buf = copied_in r bytes; tail = (r.tail + length bytes) % r.size }

  pub extended-IsValid : (bytes : List ℕ) → IsValid (extended bytes)
  extended-IsValid bytes = record {
    head_in = v.head_in;
    tail_in = omega (arith, v.tail_in);
    storage = length-copied_in r bytes ∙ v.storage;
  }

  pub used-extended :
      (bytes : List ℕ) → length bytes ≤ free r → used (extended bytes) ≡ used r + length bytes
  used-extended bytes h = ground (
    arith,
    used-add-free v,
    used_cases v,
    used_cases (extended-IsValid bytes),
    slot_cases r r.tail (length bytes),
  )

  -- The new bytes stand behind those that were held.
  get_or-extended :
      (bytes : List ℕ) (i : ℕ)
      → length bytes ≤ free r
      → i < used r + length bytes
      → get_or (copied_in r bytes) (slot r r.head i) 0 ≡ get_or (contents r ++ bytes) i 0
  get_or-extended bytes i h hi = elim (dec_lt i (used r)) [
    | yes p ↦
        get_or-copied_in_old bytes i h p
        ∙ sym (
            get_or-append_left (contents r) bytes i 0 (omega (arith, length-contents r))
            ∙ get_or-contents r i p)
    | no p ↦
        ap (λ k. get_or (copied_in r bytes) k 0) (behind (omega arith))
        ∙ get_or-copied_in_new bytes (i - used r) h (omega arith)
        ∙ sym (
            get_or-append_right (contents r) bytes i (i - used r) 0
              (omega (arith, length-contents r)))
  ]
    where
      behind : used r ≤ i → slot r r.head i ≡ slot r r.tail (i - used r)
      behind p = ground (
        arith,
        used_cases v,
        used-add-free v,
        slot_cases r r.head i,
        slot_cases r r.tail (i - used r),
      )

  pub contents-extended :
      (bytes : List ℕ) → length bytes ≤ free r → contents (extended bytes) ≡ contents r ++ bytes
  contents-extended bytes h =
      list_ext _ _ 0
        (omega (
          arith,
          length-contents (extended bytes),
          used-extended bytes h,
          length-append (contents r) bytes,
          length-contents r,
        ))
        (λ i p.
          let q : i < used r + length bytes =
            omega (arith, length-contents (extended bytes), used-extended bytes h) in
          get_or-contents (extended bytes) i (omega (arith, used-extended bytes h))
          ∙ get_or-extended bytes i h q)
