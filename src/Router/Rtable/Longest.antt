-- ===== src/Router/Rtable/Longest.antt =====
-- longest_prefix_match of code-exp5/ip_base.c against its specification.
use njucn_lab.Common.{
  ℕ, ◌+◌, ◌≤◌, ◌<◌, ◌≡◌, refl, ◌⊎◌, inl, inr, List, [], ◌∷◌, ◌++◌, Option, none, some, true, false,
  arith, Bool-cases, ltb, ap, ◌∙◌, sym, append_assoc, append-nil, subst, ltb→lt,
}
use njucn_lab.Router.Rtable.{
  RtEntry, matches, prefix_len, scan, longest_prefix_match, load_rtable, clear_rtable,
}

-- Each entry of the list that matches has a prefix of length at most `k`.
abbrev pub AtMost : ℕ → ℕ → List RtEntry → Type 0
AtMost dst k [] = Unit
AtMost dst k (e ∷ es) = ((matches dst e ≡ false) ⊎ (prefix_len e.mask ≤ k)) × AtMost dst k es

-- Each entry of the list that matches has a prefix shorter than `k`.
abbrev pub Below : ℕ → ℕ → List RtEntry → Type 0
Below dst k [] = Unit
Below dst k (e ∷ es) = ((matches dst e ≡ false) ⊎ (prefix_len e.mask < k)) × Below dst k es

abbrev pub Unmatched : ℕ → List RtEntry → Type 0
Unmatched dst [] = Unit
Unmatched dst (e ∷ es) = (matches dst e ≡ false) × Unmatched dst es

-- The entry stands in the table, matches, is longer than all matches before it, and no shorter than
-- any match behind it.
pub record IsLongest (dst : ℕ) (rtable : List RtEntry) (e : RtEntry) : Type 0 where
  pub before : List RtEntry
  pub behind : List RtEntry
  pub stands : rtable ≡ before ++ (e ∷ behind)
  pub hit : matches dst e ≡ true
  pub shorter_before : Below dst (prefix_len e.mask) before
  pub longest : AtMost dst (prefix_len e.mask) behind

pub load_rtable-append :
    (new_rtable rtable : List RtEntry) → load_rtable new_rtable rtable ≡ ([], rtable ++ new_rtable)
unfolding load_rtable
load_rtable-append [] rtable = ap (λ t. ([], t)) (sym (append-nil rtable))
load_rtable-append (e ∷ es) rtable =
    load_rtable-append es (rtable ++ (e ∷ [])) ∙ ap (λ t. ([], t)) (append_assoc rtable (e ∷ []) es)

pub clear_rtable-nil : (rtable : List RtEntry) → clear_rtable rtable ≡ []
unfolding clear_rtable
clear_rtable-nil [] = refl
clear_rtable-nil (e ∷ es) = clear_rtable-nil es

-- What the loop ends with, from a best match of length `m - 1` so far.
Scanned : ℕ → Option RtEntry → ℕ → List RtEntry → Option RtEntry → Type 0
Scanned dst best m rtable result =
    ((result ≡ best) × Below dst m rtable)
    ⊎ ((e : RtEntry) × (result ≡ some e) × IsLongest dst rtable e × (m ≤ prefix_len e.mask))

Below-AtMost : (dst k : ℕ) (es : List RtEntry) → Below dst (k + 1) es → AtMost dst k es
Below-AtMost dst k [] b = tt
Below-AtMost dst k (e ∷ es) b = (ground arith, Below-AtMost dst k es b.1)

scan_longer :
    (dst : ℕ) (best : Option RtEntry) (m : ℕ) (e : RtEntry) (es : List RtEntry)
    → matches dst e ≡ true
    → ltb m (prefix_len e.mask + 1) ≡ true
    → scan dst best m (e ∷ es) ≡ scan dst (some e) (prefix_len e.mask + 1) es
unfolding scan
scan_longer dst best m e es hit longer = rw (hit, longer)

scan_same :
    (dst : ℕ) (best : Option RtEntry) (m : ℕ) (e : RtEntry) (es : List RtEntry)
    → (matches dst e ≡ false) ⊎ (ltb m (prefix_len e.mask + 1) ≡ false)
    → scan dst best m (e ∷ es) ≡ scan dst best m es
unfolding scan
scan_same dst best m e es h = ground arith

-- An entry that does not win stands before the winner, or before the end.
Scanned-cons :
    (dst : ℕ) (best : Option RtEntry) (m : ℕ) (e : RtEntry) (es : List RtEntry) (r : Option RtEntry)
    → (matches dst e ≡ false) ⊎ (prefix_len e.mask < m)
    → Scanned dst best m es r
    → Scanned dst best m (e ∷ es) r
unfolding Scanned
Scanned-cons dst best m e es r low (inl (same, b)) = inl (same, (low, b))
Scanned-cons dst best m e es r low (inr (f, same, l, k)) = inr (
  f,
  same,
  record {
    before = e ∷ l.before;
    behind = l.behind;
    stands = ap (◌∷◌ e) l.stands;
    hit = l.hit;
    shorter_before = (ground arith, l.shorter_before);
    longest = l.longest;
  },
  k,
)

-- An entry that wins is the winner, unless a later one is longer still.
Scanned-found :
    (dst : ℕ) (best : Option RtEntry) (m : ℕ) (e : RtEntry) (es : List RtEntry) (r : Option RtEntry)
    → matches dst e ≡ true
    → m < prefix_len e.mask + 1
    → Scanned dst (some e) (prefix_len e.mask + 1) es r
    → Scanned dst best m (e ∷ es) r
unfolding Scanned
Scanned-found dst best m e es r hit longer (inl (same, b)) = inr (
  e,
  same,
  record {
    before = [];
    behind = es;
    stands = refl;
    hit = hit;
    shorter_before = tt;
    longest = Below-AtMost dst (prefix_len e.mask) es b;
  },
  omega arith,
)
Scanned-found dst best m e es r hit longer (inr (f, same, l, k)) = inr (
  f,
  same,
  record {
    before = e ∷ l.before;
    behind = l.behind;
    stands = ap (◌∷◌ e) l.stands;
    hit = l.hit;
    shorter_before = (inr (omega arith), l.shorter_before);
    longest = l.longest;
  },
  omega arith,
)

scan-Scanned :
    (dst : ℕ) (best : Option RtEntry) (m : ℕ) (rtable : List RtEntry)
    → Scanned dst best m rtable (scan dst best m rtable)
scan-Scanned dst best m [] = unfold Scanned scan in inl (refl, tt)
scan-Scanned dst best m (e ∷ es) = elim (Bool-cases (matches dst e)) [
  | inl hit ↦ elim (Bool-cases (ltb m (prefix_len e.mask + 1))) [
    | inl longer ↦
        subst (Scanned dst best m (e ∷ es)) (sym (scan_longer dst best m e es hit longer)) (
          Scanned-found dst best m e es _ hit (ltb→lt _ _ longer)
            (scan-Scanned dst (some e) (prefix_len e.mask + 1) es))
    | inr same ↦
        subst (Scanned dst best m (e ∷ es)) (sym (scan_same dst best m e es (inr same)))
          (Scanned-cons dst best m e es _ (inr (ground arith)) (scan-Scanned dst best m es))
  ]
  | inr miss ↦
      subst (Scanned dst best m (e ∷ es)) (sym (scan_same dst best m e es (inl miss)))
        (Scanned-cons dst best m e es _ (inl miss) (scan-Scanned dst best m es))
]

Below-Unmatched : (dst : ℕ) (es : List RtEntry) → Below dst 0 es → Unmatched dst es
Below-Unmatched dst [] b = tt
Below-Unmatched dst (e ∷ es) b = (ground arith, Below-Unmatched dst es b.1)

-- The result is none exactly where no entry matches, and otherwise the longest match: the first one
-- of greatest prefix length.
pub longest_prefix_match-IsLongest :
    (dst : ℕ) (rtable : List RtEntry)
    → ((longest_prefix_match dst rtable ≡ none) × Unmatched dst rtable)
      ⊎ ((e : RtEntry) × (longest_prefix_match dst rtable ≡ some e) × IsLongest dst rtable e)
unfolding longest_prefix_match
longest_prefix_match-IsLongest dst rtable =
    unfold Scanned in
    elim (scan-Scanned dst none 0 rtable) [
      | inl (r, b) ↦ inl (r, Below-Unmatched dst rtable b)
      | inr (e, r, l, _) ↦ inr (e, r, l)
    ]

-- Loading a table empties it and appends its entries, in order, to the table in force; after a clear
-- the table in force is the loaded one.
pub load_rtable_lem :
    (new_rtable rtable : List RtEntry)
    → (load_rtable new_rtable rtable ≡ ([], rtable ++ new_rtable))
      × (load_rtable new_rtable (clear_rtable rtable) ≡ ([], new_rtable))
load_rtable_lem new_rtable rtable = (
  load_rtable-append new_rtable rtable,
  load_rtable-append new_rtable (clear_rtable rtable)
      ∙ ap (λ t. ([], t ++ new_rtable)) (clear_rtable-nil rtable),
)
