-- ===== src/Mospf/Database/Newest.antt =====
-- The database keeps the newest advertisement of each router.
use njucn_lab.Common.{
  ℕ, ◌≤◌, ◌≡◌, ◌≢◌, ◌⊎◌, inl, inr, sym, ◌∙◌, List, [], ◌∷◌, Option, none, some, Bool-cases,
  Option-cases, ltb, ◌==◌, arith, if◌then◌else◌,
}
use njucn_lab.Mospf.Database.{DbEntry, Lsu, Lsa, install_lsu, handle_lsu}

-- What a router advertises: a sequence number and its links.
abbrev pub Advert : Type 0
Advert = ℕ × List Lsa

unfoldable pub advertised : ℕ → List DbEntry → Option Advert
advertised r [] = none
advertised r (e ∷ es) =
    let rest = advertised r es in if e.rid == r then some (e.seq, e.array) else rest

-- An advertisement replaces one of a smaller sequence number.
abbrev pub better : Option Advert → Lsu → Option Advert
better none u = some (u.seq, u.array)
better (some a) u = if ltb a.0 u.seq then some (u.seq, u.array) else some a

unfoldable pub handle_all : ℕ → List Lsu → List DbEntry → List DbEntry
handle_all own [] db = db
handle_all own (u ∷ us) db = handle_all own us (handle_lsu own u db).0

pub advertised-install :
    (r : ℕ) (u : Lsu) (db : List DbEntry)
    → advertised r (install_lsu u db).0
      ≡ (if u.rid == r then better (advertised r db) u else advertised r db)
unfolding advertised install_lsu
advertised-install r u [] = ground arith
advertised-install r u (e ∷ es) = ground (arith, advertised-install r u es)

advertised-handle :
    (own r : ℕ) (u : Lsu) (db : List DbEntry)
    → r ≢ own
    → advertised r (handle_lsu own u db).0
      ≡ (if u.rid == r then better (advertised r db) u else advertised r db)
unfolding handle_lsu
advertised-handle own r u db h = ground (arith, advertised-install r u db)

-- No advertisement of a router in the list is newer than a sequence number.
unfoldable pub NoneNewer : ℕ → ℕ → List Lsu → Type 0
NoneNewer r seq [] = Unit
NoneNewer r seq (u ∷ us) = ((u.rid ≡ r) → u.seq ≤ seq) × NoneNewer r seq us

-- The router sent none of them.
unfoldable pub NoneFrom : ℕ → List Lsu → Type 0
NoneFrom r [] = Unit
NoneFrom r (u ∷ us) = (u.rid ≢ r) × NoneFrom r us

-- The advertisement is one of the list's, of that router.
unfoldable pub IsSent : ℕ → Advert → List Lsu → Type 0
IsSent r a [] = ⊥
IsSent r a (u ∷ us) = ((u.rid ≡ r) × (a ≡ (u.seq, u.array))) ⊎ IsSent r a us

-- What the database has for a router after the packets.
pub record Newest (r : ℕ) (us : List Lsu) (before after : Option Advert) : Type 0 where
  pub at_least : (a b : Advert) → before ≡ some a → after ≡ some b → a.0 ≤ b.0
  pub newest : (b : Advert) → after ≡ some b → NoneNewer r b.0 us
  pub source : (b : Advert) → after ≡ some b → (before ≡ some b) ⊎ IsSent r b us
  pub known : (after ≡ none) → (before ≡ none) × NoneFrom r us

keeps :
    {r : ℕ} {us : List Lsu} {mid after : Option Advert} (before : Option Advert) (u : Lsu)
    → mid ≡ before
    → ((u.rid ≡ r) → (a : Advert) × (before ≡ some a) × (u.seq ≤ a.0))
    → Newest r us mid after
    → Newest r (u ∷ us) before after
unfolding NoneNewer NoneFrom IsSent
keeps before u e old n = record {
  at_least = λ a b p q. n.at_least a b (e ∙ p) q;
  newest = λ b q.
      ((λ here. let (a, p, l) = old here in omega (arith, n.at_least a b (e ∙ p) q)), n.newest b q);
  source = λ b q. elim (n.source b q) [ inl w ↦ inl (sym e ∙ w) | inr w ↦ inr (inr w) ];
  known = λ q. (
    sym e ∙ (n.known q).0,
    (
      (λ here. let (a, p, l) = old here in ground (arith, sym p ∙ sym e ∙ (n.known q).0)),
      (n.known q).1,
    ),
  );
}

replaces :
    {r : ℕ} {us : List Lsu} {mid after : Option Advert} (before : Option Advert) (u : Lsu)
    → mid ≡ some (u.seq, u.array)
    → u.rid ≡ r
    → ((a : Advert) → before ≡ some a → a.0 ≤ u.seq)
    → Newest r us mid after
    → Newest r (u ∷ us) before after
unfolding NoneNewer NoneFrom IsSent
replaces before u e here old n = record {
  at_least = λ a b p q. omega (arith, old a p, n.at_least (u.seq, u.array) b e q);
  newest = λ b q. ((λ _. n.at_least (u.seq, u.array) b e q), n.newest b q);
  source = λ b q. elim (n.source b q) [
    | inl w ↦ inr (inl (here, ground (arith, sym w ∙ e)))
    | inr w ↦ inr (inr w)
  ];
  known = λ q. absurd (ground (arith, sym e ∙ (n.known q).0));
}

-- After any packets from other routers, in any order, the database holds for a router the
-- advertisement with the greatest sequence number among those that came from it and the one that was
-- there before: none of these is newer, and what it holds is one of them. It holds none only if
-- there was none.
pub handle_all-Newest :
    (own r : ℕ) (us : List Lsu) (db : List DbEntry)
    → r ≢ own
    → Newest r us (advertised r db) (advertised r (handle_all own us db))
unfolding NoneNewer NoneFrom IsSent handle_all
handle_all-Newest own r [] db h = record {
  at_least = λ a b p q. ground arith;
  newest = λ b q. tt;
  source = λ b q. inl q;
  known = λ q. (q, tt);
}
handle_all-Newest own r (u ∷ us) db h =
    let rest = handle_all-Newest own r us (handle_lsu own u db).0 h in
    let step = advertised-handle own r u db h in
    elim (Bool-cases (u.rid == r)) [
      | inr far ↦
          keeps (advertised r db) u (ground (arith, step, far)) (λ here. absurd (ground arith)) rest
      | inl here ↦ elim (Option-cases (advertised r db)) [
        | inl none_yet ↦
            replaces (advertised r db) u (ground (arith, step, here, none_yet)) (ground arith)
              (λ a p. absurd (ground (arith, p, none_yet))) rest
        | inr (a, held) ↦ elim (Bool-cases (ltb a.0 u.seq)) [
          | inl newer ↦
              replaces (advertised r db) u (ground (arith, step, here, held, newer)) (ground arith)
                (λ b p. ground (arith, p, held, newer)) rest
          | inr older ↦
              keeps (advertised r db) u (ground (arith, step, here, held, older))
                (λ _. (a, held, ground arith)) rest
        ]
      ]
    ]
