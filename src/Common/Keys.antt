-- ===== src/Common/Keys.antt =====
-- Lists whose elements have distinct keys.
use njucn_lab.Common.{ℕ, zero, suc, ◌<◌, ◌≢◌, sym, List, [], ◌∷◌, ◌++◌, length, get_or, arith}

module _ {A : Type 0} (key : A → ℕ) where
  -- No element has the key.
  abbrev pub Absent : ℕ → List A → Type 0
  Absent k [] = Unit {0}
  Absent k (x ∷ xs) = (key x ≢ k) × Absent k xs

  abbrev pub IsDistinct : List A → Type 0
  IsDistinct [] = Unit {0}
  IsDistinct (x ∷ xs) = Absent (key x) xs × IsDistinct xs

  pub Absent-snoc :
      (k : ℕ) (xs : List A) (y : A) → Absent k xs → key y ≢ k → Absent k (xs ++ (y ∷ []))
  Absent-snoc k [] y h n = (n, tt)
  Absent-snoc k (x ∷ xs) y h n = (h.0, Absent-snoc k xs y h.1 n)

  pub IsDistinct-snoc :
      (xs : List A) (y : A) → IsDistinct xs → Absent (key y) xs → IsDistinct (xs ++ (y ∷ []))
  IsDistinct-snoc [] y h a = (tt, tt)
  IsDistinct-snoc (x ∷ xs) y h a =
      (Absent-snoc (key x) xs y h.0 (λ e. a.0 (sym e)), IsDistinct-snoc xs y h.1 a.1)

  pub Absent-get :
      (k : ℕ) (xs : List A) (j : ℕ) (d : A) → Absent k xs → j < length xs → key (get_or xs j d) ≢ k
  Absent-get k [] j d h l = absurd (omega (arith, l))
  Absent-get k (x ∷ xs) zero d h l = h.0
  Absent-get k (x ∷ xs) (suc j) d h l = Absent-get k xs j d h.1 (omega (arith, l))
