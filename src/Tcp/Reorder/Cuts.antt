-- ===== src/Tcp/Reorder/Cuts.antt =====
-- The buffer of segments out of order, when a stream is cut into segments: each is known by its place
-- among them.
use mathlib.Core.List.{Memᴰ}
use mathlib.Core.List.Memᴰ.{head, tail, cases_cons}
use native.Mathlib.Decide.{dec_lt}
use njucn_lab.Common.{
  ℕ, zero, suc, ◌+◌, ◌-◌, ◌^◌, ◌≤◌, ◌<◌, ◌≡◌, inl, inr, refl, ap, subst, List, [], ◌∷◌, map,
  Bool-cases, length, ltb, ◌==◌, if◌then◌else◌, arith,
}
use njucn_lab.Tcp.Seq.{add32, less_than_32b}
use njucn_lab.Tcp.Seq.Order.{less_than_32b-add32}
use njucn_lab.Tcp.Sock.{RecvOfoBufEntry}
use njucn_lab.Tcp.Reorder.{insert_entry}
use njucn_lab.Tcp.Reorder.Stream.{bytes}

-- The segment at place `i` holds the bytes of the stream from `cut i` on, up to `cut (suc i)`. There are
-- `total` segments, and the stream starts at the sequence number `base`.
pub record IsCut (base : ℕ) (cut : ℕ → ℕ) (total : ℕ) : Type 0 where
  pub numbered : base < 2 ^ 32
  pub rising : (i : ℕ) → i < total → cut i < cut (suc i)
  pub small : cut total < 2 ^ 31

-- Places in ascending order, from `lo` on.
unfoldable pub Rising : ℕ → ℕ → List ℕ → Type 0
Rising total lo [] = Unit
Rising total lo (i ∷ is) = (lo ≤ i) × (i < total) × Rising total (suc i) is

pub Rising-member :
    (total lo k : ℕ) (is : List ℕ) → Rising total lo is → Memᴰ k is → (lo ≤ k) × (k < total)
unfolding Rising
Rising-member total lo k [] r m = elim m [ ]
Rising-member total lo k (i ∷ is) (l, u, r) m = elim (cases_cons m) [
  | inl e ↦ (omega (arith, l, e), omega (arith, u, e))
  | inr m' ↦ let (l', u') = Rising-member total (suc i) k is r m' in (omega (arith, l, l'), u')
]

-- Where a place is put among others.
unfoldable pub insert_place : ℕ → List ℕ → List ℕ
insert_place i [] = i ∷ []
insert_place i (j ∷ js) =
    let rest = insert_place i js in
    if i == j then j ∷ js else if ltb i j then i ∷ j ∷ js else j ∷ rest

pub insert_place-Rising :
    (total lo i : ℕ) (js : List ℕ)
    → lo ≤ i
    → i < total
    → Rising total lo js
    → Rising total lo (insert_place i js)
unfolding insert_place Rising
insert_place-Rising total lo i [] l u r = (l, u, tt)
insert_place-Rising total lo i (j ∷ js) l u (a, b, r) = elim (Bool-cases (i == j)) [
  | inl e ↦ rw e (a, b, r)
  | inr e ↦ elim (Bool-cases (ltb i j)) [
    | inl f ↦ rw (e, f) (l, u, ((ground arith), b, r))
    | inr f ↦ rw (e, f) (a, b, insert_place-Rising total (suc j) i js (ground arith) u r)
  ]
]

pub insert_place-member : (i : ℕ) (js : List ℕ) → Memᴰ i (insert_place i js)
unfolding insert_place
insert_place-member i [] = head refl
insert_place-member i (j ∷ js) = elim (Bool-cases (i == j)) [
  | inl e ↦ rw e (head (ground arith))
  | inr e ↦ elim (Bool-cases (ltb i j)) [
    | inl f ↦ rw (e, f) (head refl)
    | inr f ↦ rw (e, f) (tail (insert_place-member i js))
  ]
]

pub insert_place-keeps : (i k : ℕ) (js : List ℕ) → Memᴰ k js → Memᴰ k (insert_place i js)
unfolding insert_place
insert_place-keeps i k [] m = elim m [ ]
insert_place-keeps i k (j ∷ js) m = elim (Bool-cases (i == j)) [
  | inl e ↦ rw e m
  | inr e ↦ elim (Bool-cases (ltb i j)) [
    | inl f ↦ rw (e, f) (tail m)
    | inr f ↦
        rw (e, f)
          (elim (cases_cons m) [ inl q ↦ head q | inr m' ↦ tail (insert_place-keeps i k js m') ])
  ]
]

pub length-bytes : (stream : ℕ → ℕ) (off k : ℕ) → length (bytes stream off k) ≡ k
unfolding bytes
length-bytes stream off zero = refl
length-bytes stream off (suc k) = ap suc (length-bytes stream (off + 1) k)

module _ (stream : ℕ → ℕ) (base : ℕ) (cut : ℕ → ℕ) where
  abbrev pub size : ℕ → ℕ
  size i = cut (suc i) - cut i

  abbrev pub entry : ℕ → RecvOfoBufEntry
  entry i = record {
    seq = add32 base (cut i);
    seq_end = add32 base (cut (suc i));
    packet = bytes stream (cut i) (size i);
  }

  module _ (total : ℕ) (c : IsCut base cut total) where
    pub cut-le : (i d : ℕ) → i + d ≤ total → cut i ≤ cut (i + d)
    cut-le i zero h = let q : i + 0 ≡ i = omega arith in rw q (omega arith)
    cut-le i (suc d) h =
        let q : i + suc d ≡ suc (i + d) = omega arith in
        rw q (omega (arith, cut-le i d (omega (arith, h)), c.rising (i + d) (omega (arith, h))))

    pub cut_le : (i j : ℕ) → i ≤ j → j ≤ total → cut i ≤ cut j
    cut_le i j l h =
        let q : i + (j - i) ≡ j = omega (arith, l) in
        subst (λ k. cut i ≤ cut k) q (cut-le i (j - i) (omega (arith, l, h)))

    pub cut_lt : (i j : ℕ) → i < j → j ≤ total → cut i < cut j
    cut_lt i j l h =
        omega (arith, c.rising i (omega (arith, l, h)), cut_le (suc i) j (omega (arith, l)) h)

    pub cut_small : (i : ℕ) → i ≤ total → cut i < 2 ^ 31
    cut_small i h = omega (arith, cut_le i total h (omega arith), c.small)

    -- Sequence numbers tell places apart.
    pub same_place :
        (i j : ℕ) → i ≤ total → j ≤ total → (add32 base (cut i) == add32 base (cut j)) ≡ (i == j)
    same_place i j hi hj = elim (Bool-cases (i == j)) [
      | inl e ↦ let q : i ≡ j = ground (arith, e) in rw q (ground arith)
      | inr e ↦ rw e (elim (dec_lt i j) [
        | yes l ↦ ground (arith, c.numbered, cut_lt i j l hj, cut_small i hi, cut_small j hj)
        | no l ↦
            let g : j < i = ground (arith, e, l) in
            ground (arith, c.numbered, cut_lt j i g hi, cut_small i hi, cut_small j hj)
      ])
    ]

    before_place :
        (i j : ℕ)
        → i ≤ total
        → j ≤ total
        → less_than_32b (add32 base (cut i)) (add32 base (cut j)) ≡ ltb i j
    before_place i j hi hj =
        let o =
          (less_than_32b-add32 base (cut i) (cut j) c.numbered (cut_small i hi)
            (cut_small j hj)).0 in
        elim (dec_lt i j) [
          | yes l ↦ ground (arith, o, cut_lt i j l hj)
          | no l ↦ ground (arith, o, cut_le j i (omega (arith, l)) hi)
        ]

    pub insert_entry-place :
        (i : ℕ) (js : List ℕ) (lo : ℕ)
        → i < total
        → Rising total lo js
        → insert_entry (entry i) (map entry js) ≡ map entry (insert_place i js)
    unfolding insert_entry insert_place Rising
    insert_entry-place i [] lo h r = refl
    insert_entry-place i (j ∷ js) lo h (l, u, r) =
        let same = same_place i j (omega (arith, h)) (omega (arith, u)) in
        let before = before_place i j (omega (arith, h)) (omega (arith, u)) in
        elim (Bool-cases (i == j)) [
          | inl e ↦ rw (insert_entry, insert_place, same, e) refl
          | inr e ↦ elim (Bool-cases (ltb i j)) [
            | inl f ↦ rw (insert_entry, insert_place, same, before, e, f) refl
            | inr f ↦
                rw (insert_entry, insert_place, same, before, e, f)
                  (ap (λ t. entry j ∷ t) (insert_entry-place i js (suc j) h r))
          ]
        ]
