-- ===== src/Common/Index.antt =====
-- Arrays read at every index: a list is determined by its length and its cells, so that copies
-- between arrays are compared cell by cell.
use Prim.Native.Nat.{ℕ, zero, suc, ◌+◌, ◌-◌, ◌≤◌, ◌<◌}
use mathlib.Core.Path.{◌≡◌, refl, ap, ap₂, ◌∙◌}
use mathlib.Core.Logic.{◌≢◌, ◌⊎◌, inl, inr}
use native.Mathlib.Decide.{dec_lt}
use mathlib.Core.List.{List, [], ◌∷◌, ◌++◌}
use native.Mathlib.Omega.{arith}
use njucn_lab.Common.Lists.{length, get_or, set, take, drop, length-set, length-take, length-drop}

module _ {ℓ} {A : Type ℓ} where
  -- `n` cells from index `off` on.
  abbrev pub slice : List A → ℕ → ℕ → List A
  slice xs off n = take n (drop off xs)

  -- memcpy into `xs` at `off`; a store out of range changes nothing.
  abbrev pub blit : List A → ℕ → List A → List A
  blit xs off [] = xs
  blit xs off (y ∷ ys) = blit (set xs off y) (suc off) ys

  abbrev pub tabulate : ℕ → (ℕ → A) → List A
  tabulate zero f = []
  tabulate (suc n) f = f 0 ∷ tabulate n (λ i. f (suc i))

  pub length-tabulate : (n : ℕ) (f : ℕ → A) → length (tabulate n f) ≡ n
  length-tabulate zero f = refl
  length-tabulate (suc n) f = ap suc (length-tabulate n (λ i. f (suc i)))

  pub length-blit : (xs : List A) (off : ℕ) (ys : List A) → length (blit xs off ys) ≡ length xs
  length-blit xs off [] = refl
  length-blit xs off (y ∷ ys) =
      omega (arith, length-blit (set xs off y) (suc off) ys, length-set xs off y)

  pub get_or-tabulate :
      (n : ℕ) (f : ℕ → A) (i : ℕ) (d : A) → i < n → get_or (tabulate n f) i d ≡ f i
  get_or-tabulate zero f i d h = absurd (omega arith)
  get_or-tabulate (suc n) f zero d h = refl
  get_or-tabulate (suc n) f (suc i) d h = get_or-tabulate n (λ i. f (suc i)) i d (omega arith)

  pub get_or-drop :
      (k : ℕ) (xs : List A) (i : ℕ) (d : A) → get_or (drop k xs) i d ≡ get_or xs (k + i) d
  get_or-drop zero xs i d = ap (λ n. get_or xs n d) (omega arith)
  get_or-drop (suc k) [] i d = refl
  get_or-drop (suc k) (x ∷ xs) i d =
      get_or-drop k xs i d
      ∙ ap (λ n. get_or (x ∷ xs) n d) (let e : suc (k + i) ≡ suc k + i = omega arith in e)

  pub get_or-take :
      (n : ℕ) (xs : List A) (i : ℕ) (d : A) → i < n → get_or (take n xs) i d ≡ get_or xs i d
  get_or-take zero xs i d h = absurd (omega arith)
  get_or-take (suc n) [] i d h = refl
  get_or-take (suc n) (x ∷ xs) zero d h = refl
  get_or-take (suc n) (x ∷ xs) (suc i) d h = get_or-take n xs i d (omega arith)

  pub length-slice : (xs : List A) (off n : ℕ) → off + n ≤ length xs → length (slice xs off n) ≡ n
  length-slice xs off n h = omega (arith, length-take n (drop off xs), length-drop off xs)

  pub get_or-slice :
      (xs : List A) (off n i : ℕ) (d : A)
      → i < n
      → get_or (slice xs off n) i d ≡ get_or xs (off + i) d
  get_or-slice xs off n i d h = get_or-take n (drop off xs) i d h ∙ get_or-drop off xs i d

  pub drop-append : (xs ys : List A) (n : ℕ) → drop (length xs + n) (xs ++ ys) ≡ drop n ys
  drop-append [] ys n = ap (λ k. drop k ys) (let q : 0 + n ≡ n = omega arith in q)
  drop-append (x ∷ xs) ys n =
      ap (λ k. drop k (x ∷ xs ++ ys))
        (let q : suc (length xs) + n ≡ suc (length xs + n) = omega arith in q)
      ∙ drop-append xs ys n

  pub drop-set : (xs : List A) (i n : ℕ) (v : A) → i < n → drop n (set xs i v) ≡ drop n xs
  drop-set [] i n v h = refl
  drop-set (x ∷ xs) i zero v h = absurd (omega (arith, h))
  drop-set (x ∷ xs) zero (suc n) v h = refl
  drop-set (x ∷ xs) (suc i) (suc n) v h = drop-set xs i n v (omega (arith, h))

  pub drop-blit :
      (xs : List A) (off n : ℕ) (ys : List A)
      → off + length ys ≤ n
      → drop n (blit xs off ys) ≡ drop n xs
  drop-blit xs off n [] h = refl
  drop-blit xs off n (y ∷ ys) h =
      drop-blit (set xs off y) (suc off) n ys (omega (arith, h))
      ∙ drop-set xs off n y (omega (arith, h))

  pub get_or-append_left :
      (xs ys : List A) (i : ℕ) (d : A) → i < length xs → get_or (xs ++ ys) i d ≡ get_or xs i d
  get_or-append_left [] ys i d h = absurd (omega arith)
  get_or-append_left (x ∷ xs) ys zero d h = refl
  get_or-append_left (x ∷ xs) ys (suc i) d h = get_or-append_left xs ys i d (omega arith)

  pub get_or-append_right :
      (xs ys : List A) (i j : ℕ) (d : A) → i ≡ length xs + j → get_or (xs ++ ys) i d ≡ get_or ys j d
  get_or-append_right [] ys i j d h = ap (λ n. get_or ys n d) (omega arith)
  get_or-append_right (x ∷ xs) ys zero j d h = absurd (omega arith)
  get_or-append_right (x ∷ xs) ys (suc i) j d h = get_or-append_right xs ys i j d (omega arith)

  pub get_or-set_self :
      (xs : List A) (i : ℕ) (v d : A) → i < length xs → get_or (set xs i v) i d ≡ v
  get_or-set_self [] i v d h = absurd (omega arith)
  get_or-set_self (x ∷ xs) zero v d h = refl
  get_or-set_self (x ∷ xs) (suc i) v d h = get_or-set_self xs i v d (omega arith)

  pub get_or-set_ne :
      (xs : List A) (i j : ℕ) (v d : A) → i ≢ j → get_or (set xs i v) j d ≡ get_or xs j d
  get_or-set_ne [] i j v d h = refl
  get_or-set_ne (x ∷ xs) zero zero v d h = absurd (h refl)
  get_or-set_ne (x ∷ xs) zero (suc j) v d h = refl
  get_or-set_ne (x ∷ xs) (suc i) zero v d h = refl
  get_or-set_ne (x ∷ xs) (suc i) (suc j) v d h = get_or-set_ne xs i j v d (λ e. h (ap suc e))

  -- A cell before the copied block is kept.
  pub get_or-blit_before :
      (xs : List A) (off : ℕ) (ys : List A) (j : ℕ) (d : A)
      → j < off
      → get_or (blit xs off ys) j d ≡ get_or xs j d
  get_or-blit_before xs off [] j d h = refl
  get_or-blit_before xs off (y ∷ ys) j d h =
      get_or-blit_before (set xs off y) (suc off) ys j d (omega arith)
      ∙ get_or-set_ne xs off j y d (omega arith)

  -- So is a cell behind it.
  pub get_or-blit_behind :
      (xs : List A) (off : ℕ) (ys : List A) (j : ℕ) (d : A)
      → off + length ys ≤ j
      → get_or (blit xs off ys) j d ≡ get_or xs j d
  get_or-blit_behind xs off [] j d h = refl
  get_or-blit_behind xs off (y ∷ ys) j d h =
      get_or-blit_behind (set xs off y) (suc off) ys j d (omega arith)
      ∙ get_or-set_ne xs off j y d (omega arith)

  -- A cell of the block holds what was copied.
  pub get_or-blit_in :
      (xs : List A) (off : ℕ) (ys : List A) (j i : ℕ) (d : A)
      → j ≡ off + i
      → i < length ys
      → off + length ys ≤ length xs
      → get_or (blit xs off ys) j d ≡ get_or ys i d
  get_or-blit_in xs off [] j i d e h l = absurd (omega arith)
  get_or-blit_in xs off (y ∷ ys) j zero d e h l =
      get_or-blit_before (set xs off y) (suc off) ys j d (omega arith)
      ∙ ap (λ n. get_or (set xs off y) n d) (let q : j ≡ off = omega arith in q)
      ∙ get_or-set_self xs off y d (omega arith)
  get_or-blit_in xs off (y ∷ ys) j (suc i) d e h l =
      get_or-blit_in (set xs off y) (suc off) ys j i d (omega arith) (omega arith)
        (omega (arith, length-set xs off y))

  -- Each cell is before the block, behind it, or in it.
  pub get_or-blit_cases :
      (xs : List A) (off : ℕ) (ys : List A) (j : ℕ) (d : A)
      → off + length ys ≤ length xs
      → ((off ≤ j) × (j < off + length ys) × (get_or (blit xs off ys) j d ≡ get_or ys (j - off) d))
        ⊎ (((j < off) ⊎ (off + length ys ≤ j)) × (get_or (blit xs off ys) j d ≡ get_or xs j d))
  get_or-blit_cases xs off ys j d l = elim (dec_lt j off) [
    | yes h ↦ inr (inl h, get_or-blit_before xs off ys j d h)
    | no h ↦ elim (dec_lt j (off + length ys)) [
      | yes k ↦
          inl (omega arith, k, get_or-blit_in xs off ys j (j - off) d (omega arith) (omega arith) l)
      | no k ↦ inr (inr (omega arith), get_or-blit_behind xs off ys j d (omega arith))
    ]
  ]

  -- Lists of one length with equal cells are equal.
  pub list_ext :
      (xs ys : List A) (d : A)
      → length xs ≡ length ys
      → ((i : ℕ) → i < length xs → get_or xs i d ≡ get_or ys i d)
      → xs ≡ ys
  list_ext [] [] d e h = refl
  list_ext [] (y ∷ ys) d e h = absurd (omega arith)
  list_ext (x ∷ xs) [] d e h = absurd (omega arith)
  list_ext (x ∷ xs) (y ∷ ys) d e h =
      ap₂ ◌∷◌ (h 0 (omega arith)) (list_ext xs ys d (omega arith) (λ i p. h (suc i) (omega arith)))
