-- ===== src/Mospf/Flood/Copies.antt =====
-- What the copies of an update carry that a router passes on, and who gets one.
use njucn_lab.Common.{
  ℕ, zero, suc, ◌/◌, ◌%◌, ◌^◌, ◌≤◌, ◌<◌, ◌≡◌, ◌≢◌, ◌⊎◌, refl, inl, inr, sym, ap, ◌∙◌, List, [], ◌∷◌,
  length, length-set, get_or, set, take, drop, drop-set, drop-blit, blit, length-blit,
  get_or-blit_in, get_or-set_self, get_or-set_ne, get_or-blit_before, get_or-blit_behind, arith,
}
use njucn_lab.Net.Bytes.{le16, get16}
use njucn_lab.Net.Checksum.Verify.{checksum_late-lt}
use njucn_lab.Mospf.Proto.{mospf_checksum, store_checksum, read_u16}
use njucn_lab.Mospf.Flood.{lsu_ttl, with_ttl}

blit-again :
    (xs : List ℕ) (i a b c d : ℕ)
    → blit (blit xs i (a ∷ b ∷ [])) i (c ∷ d ∷ []) ≡ blit xs i (c ∷ d ∷ [])
blit-again [] i a b c d = refl
blit-again (x ∷ []) zero a b c d = refl
blit-again (x ∷ y ∷ xs) zero a b c d = refl
blit-again (x ∷ xs) (suc i) a b c d = ap (λ t. x ∷ t) (blit-again xs i a b c d)

-- The field does not count towards the sum that is stored in it.
mospf_checksum-stored : (msg : List ℕ) → mospf_checksum (store_checksum msg) ≡ mospf_checksum msg
unfolding store_checksum mospf_checksum
mospf_checksum-stored msg =
    let c = mospf_checksum msg in
    let same : get16 (blit msg 12 (le16 c)) 2 ≡ get16 msg 2 = omega (
      arith,
      get_or-blit_before msg 12 (le16 c) 2 0 (omega arith),
      get_or-blit_before msg 12 (le16 c) 3 0 (omega arith),
    ) in
    rw (same, blit-again msg 12 (c % 256) (c / 256 % 256) 0 0) refl

mospf_checksum-lt : (msg : List ℕ) → mospf_checksum msg < 2 ^ 16
unfolding mospf_checksum
mospf_checksum-lt msg = checksum_late-lt (take (get16 msg 2) (blit msg 12 (0 ∷ 0 ∷ []))) 0

stored-length : (msg : List ℕ) → length (store_checksum msg) ≡ length msg
unfolding store_checksum
stored-length msg = length-blit msg 12 (le16 (mospf_checksum msg))

stored-drop : (msg : List ℕ) → drop 24 (store_checksum msg) ≡ drop 24 msg
unfolding store_checksum
stored-drop msg = drop-blit msg 12 24 (le16 (mospf_checksum msg)) (omega arith)

-- A message that differs from `msg` in its time to live, and whose checksum is right.
pub record IsCopy (ttl : ℕ) (msg copy : List ℕ) : Type 0 where
  pub size : length copy ≡ length msg
  pub cells : (i : ℕ) → ((i < 12) ⊎ (14 ≤ i)) → i ≢ 18 → get_or copy i 0 ≡ get_or msg i 0
  pub rest : drop 24 copy ≡ drop 24 msg
  pub time : lsu_ttl copy ≡ ttl
  pub checks : mospf_checksum copy ≡ read_u16 copy 12

stored_cells :
    (msg : List ℕ) (i : ℕ)
    → ((i < 12) ⊎ (14 ≤ i))
    → get_or (store_checksum msg) i 0 ≡ get_or msg i 0
unfolding store_checksum
stored_cells msg i (inl h) = get_or-blit_before msg 12 (le16 (mospf_checksum msg)) i 0 h
stored_cells msg i (inr h) = get_or-blit_behind msg 12 (le16 (mospf_checksum msg)) i 0 h

stored_checks :
    (msg : List ℕ)
    → 14 ≤ length msg
    → mospf_checksum (store_checksum msg) ≡ read_u16 (store_checksum msg) 12
unfolding store_checksum
stored_checks msg h =
    let c = mospf_checksum msg in
    omega (
      arith,
      mospf_checksum-stored msg,
      mospf_checksum-lt msg,
      get_or-blit_in msg 12 (le16 c) 12 0 0 (omega arith) (omega arith) h,
      get_or-blit_in msg 12 (le16 c) 13 1 0 (omega arith) (omega arith) h,
    )

pub with_ttl-IsCopy : (ttl : ℕ) (msg : List ℕ) → 24 ≤ length msg → IsCopy ttl msg (with_ttl ttl msg)
unfolding with_ttl
with_ttl-IsCopy ttl msg h =
    let m = set msg 18 ttl in
    record {
      size = stored-length m ∙ length-set msg 18 ttl;
      cells = λ i w n. stored_cells m i w ∙ get_or-set_ne msg 18 i ttl 0 (λ q. n (sym q));
      rest = stored-drop m ∙ drop-set msg 18 24 ttl (omega arith);
      time =
          stored_cells m 18 (inr (omega arith)) ∙ get_or-set_self msg 18 ttl 0 (omega (arith, h));
      checks = stored_checks m (omega (arith, h, length-set msg 18 ttl));
    }

pub IsCopy-trans : {t u : ℕ} {a b c : List ℕ} → IsCopy t a b → IsCopy u b c → IsCopy u a c
IsCopy-trans p q = record {
  size = q.size ∙ p.size;
  cells = λ i w n. q.cells i w n ∙ p.cells i w n;
  rest = q.rest ∙ p.rest;
  time = q.time;
  checks = q.checks;
}
