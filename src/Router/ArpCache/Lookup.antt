-- ===== src/Router/ArpCache/Lookup.antt =====
-- What the table of code-exp5/arpcache.c knows: lookups after an insertion and after a sweep.
use njucn_lab.Common.{
  ℕ, zero, suc, ◌-◌, ◌≤◌, ◌<◌, ◌≡◌, ◌≢◌, ◌⊎◌, inl, inr, refl, ap, List, [], ◌∷◌, Option, none, some,
  true, false, length, length-set, set, take, arith, Bool-cases, ◌∙◌,
}
use njucn_lab.Router.ArpCache.Pending.{place, arpcache_insert_lem}
use njucn_lab.Router.State.{Router, ArpEntry}
use njucn_lab.Router.ArpCache.{
  max_arp_size, lookup_entries, arpcache_lookup, free_index, arpcache_insert, age_entries,
  sweep_entries, arp_entry_timeout,
}

free_index-le : (es : List ArpEntry) → free_index es ≤ length es
unfolding free_index
free_index-le [] = omega arith
free_index-le (e ∷ es) = ground (arith, free_index-le es)

lookup_entries-set :
    (ip4 : ℕ) (mac : List ℕ) (added : ℕ) (es : List ArpEntry) (i : ℕ)
    → i < length es
    → lookup_entries ip4 es ≡ none
    → lookup_entries ip4 (set es i (record { ip4 = ip4; mac = mac; added = added; valid = true }))
      ≡ some mac
unfolding lookup_entries
lookup_entries-set ip4 mac added [] i h n = absurd (omega arith)
lookup_entries-set ip4 mac added (e ∷ es) zero h n = ground arith
lookup_entries-set ip4 mac added (e ∷ es) (suc i) h n =
    ground (arith, lookup_entries-set ip4 mac added es i)

-- Filling a free entry for one address leaves the lookups of the others alone.
lookup_entries-free :
    (ip4 other : ℕ) (mac : List ℕ) (added : ℕ) (es : List ArpEntry)
    → other ≢ ip4
    → lookup_entries other
        (set es (free_index es) (record { ip4 = ip4; mac = mac; added = added; valid = true }))
      ≡ lookup_entries other es
unfolding lookup_entries free_index
lookup_entries-free ip4 other mac added [] ne = refl
lookup_entries-free ip4 other mac added (e ∷ es) ne = elim (Bool-cases e.valid) [
  | inl v ↦ rw v (ground (arith, lookup_entries-free ip4 other mac added es ne))
  | inr v ↦ rw v (ground arith)
]

-- The table holds a mapping before its first free entry.
abbrev pub known_before_free : ℕ → Router → Option (List ℕ)
known_before_free ip4 r = lookup_entries ip4 (take (free_index r.entries) r.entries)

place-free : (r : Router) → free_index r.entries ≢ max_arp_size → place r ≡ free_index r.entries
place-free r h = ground arith

place-lt : (r : Router) → length r.entries ≡ max_arp_size → place r < max_arp_size
place-lt r h = ground (arith, free_index-le r.entries)

-- An address that was not known maps to the hardware address that was learned for it, also where the
-- table was full.
pub lookup-insert_new :
    (ip4 : ℕ) (mac : List ℕ) (r : Router)
    → length r.entries ≡ max_arp_size
    → arpcache_lookup ip4 r ≡ none
    → arpcache_lookup ip4 (arpcache_insert ip4 mac r) ≡ some mac
unfolding arpcache_lookup
lookup-insert_new ip4 mac r h n =
    ap (lookup_entries ip4) (arpcache_insert_lem ip4 mac r).0
    ∙ lookup_entries-set ip4 mac r.now r.entries (place r) (omega (arith, place-lt r h)) n

-- While the table has a free entry, what other addresses map to does not change.
pub lookup-insert_other :
    (ip4 other : ℕ) (mac : List ℕ) (r : Router)
    → free_index r.entries ≢ max_arp_size
    → other ≢ ip4
    → arpcache_lookup other (arpcache_insert ip4 mac r) ≡ arpcache_lookup other r
unfolding arpcache_lookup
lookup-insert_other ip4 other mac r free ne =
    ap (lookup_entries other) (arpcache_insert_lem ip4 mac r).0
    ∙ ap
        (λ i.
          lookup_entries other
            (set r.entries i (record { ip4 = ip4; mac = mac; added = r.now; valid = true })))
        (place-free r free)
    ∙ lookup_entries-free ip4 other mac r.now r.entries ne

-- The table keeps its size.
pub length-insert :
    (ip4 : ℕ) (mac : List ℕ) (r : Router)
    → length (arpcache_insert ip4 mac r).entries ≡ length r.entries
length-insert ip4 mac r =
    ap length (arpcache_insert_lem ip4 mac r).0 ∙ length-set r.entries (place r) _

-- Every valid entry is at most 15 seconds old.
abbrev pub AllFresh : ℕ → List ArpEntry → Type 0
AllFresh now [] = Unit
AllFresh now (e ∷ es) = ((e.valid ≡ false) ⊎ (now - e.added ≤ arp_entry_timeout)) × AllFresh now es

age_entries-AllFresh : (now : ℕ) (es : List ArpEntry) → AllFresh now (age_entries now es)
unfolding age_entries
age_entries-AllFresh now [] = tt
age_entries-AllFresh now (e ∷ es) = ground (arith, age_entries-AllFresh now es)

age_entries_fresh : (now : ℕ) (es : List ArpEntry) → AllFresh now es → age_entries now es ≡ es
unfolding age_entries
age_entries_fresh now [] f = refl
age_entries_fresh now (e ∷ es) f = ground (arith, age_entries_fresh now es)

-- After a sweep every valid entry is at most 15 seconds old.
pub sweep_entries-AllFresh : (r : Router) → AllFresh r.now (sweep_entries r).entries
unfolding sweep_entries
sweep_entries-AllFresh r = age_entries-AllFresh r.now r.entries

-- A sweep changes nothing in a table whose valid entries are at most 15 seconds old.
pub sweep_entries_fresh : (r : Router) → AllFresh r.now r.entries → sweep_entries r ≡ r
unfolding sweep_entries
sweep_entries_fresh r f = ap (λ es. record r { entries = es }) (age_entries_fresh r.now r.entries f)
