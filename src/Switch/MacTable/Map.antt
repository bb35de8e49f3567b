-- ===== src/Switch/MacTable/Map.antt =====
-- The table of code-exp9/mac.c as a finite map: lookups after each operation, and the invariant that
-- every operation keeps, in any interleaving.

use native.Mathlib.Decide.{ℕ_discrete}
use njucn_lab.Common.{
  ℕ, zero, suc, ◌+◌, ◌≡◌, refl, ap, ◌∙◌, List, [], ◌∷◌, Option, none, some, length, get_or,
  length-set, length-replicate, get_or-set_self, get_or-set_ne, if◌then◌else◌, arith, replicate,
}
use njucn_lab.Switch.Hash.{mac_eq, mac_eq_iff, hash8, hash8-lt}
use njucn_lab.Switch.MacTable.{
  Entry, Table, init_mac_port_table, destory_mac_port_table, destroy_buckets, lookup_port,
  insert_mac_port, sweep_aged_mac_port_entry, sweep_bucket, insert_bucket,
}
use njucn_lab.Switch.MacTable.Bucket.{
  find_entry, iface_of, nil-IsBucket, find_entry-nil, IsBucket, still_fresh,
  lookup_bucket-find_entry, find_entry-insert_bucket, insert_bucket-IsBucket,
  find_entry-sweep_bucket, sweep_bucket-IsBucket, length-sweep_bucket,
}

pub record IsValid (t : Table) : Type 0 where
  pub buckets : length t ≡ 256
  pub distinct : (h : ℕ) → IsBucket h (get_or t h [])

-- The entry of an address in the table.
pub find : List ℕ → Table → Option Entry
find mac t = find_entry mac (get_or t (hash8 mac) [])

pub lookup_port-find : (mac : List ℕ) (t : Table) → lookup_port mac t ≡ iface_of (find mac t)
unfolding lookup_port find
lookup_port-find mac t = lookup_bucket-find_entry mac (get_or t (hash8 mac) [])

get_or-replicate : (n h : ℕ) → get_or (replicate {A = List Entry} n []) h [] ≡ []
get_or-replicate zero h = refl
get_or-replicate (suc n) zero = refl
get_or-replicate (suc n) (suc h) = get_or-replicate n h

pub init-IsValid : IsValid init_mac_port_table
unfolding init_mac_port_table
init-IsValid = record {
  buckets = length-replicate {A = List Entry} 256 [];
  distinct = λ h. rw (get_or-replicate 256 h) (nil-IsBucket h);
}

-- After an insertion the address maps to the new port and time, and every other address to what it
-- mapped to.
pub find-insert_mac_port :
    {t : Table} (m mac : List ℕ) (iface now : ℕ)
    → IsValid t
    → find m (insert_mac_port mac iface now t) ≡ (
        if mac_eq mac m
        then some (record { mac = mac; iface = iface; visited = now })
        else find m t)
unfolding find insert_mac_port
find-insert_mac_port {t} m mac iface now v = elim (ℕ_discrete (hash8 mac) (hash8 m)) [
  | yes e ↦
      rw
        (
          ← e,
          get_or-set_self t (hash8 mac) (insert_bucket mac iface now (get_or t (hash8 mac) [])) []
              (omega (arith, v.buckets, hash8-lt mac)),
        )
        (find_entry-insert_bucket m mac iface now (get_or t (hash8 mac) []))
  | no ne ↦ ground (
    arith,
    mac_eq_iff mac m,
    get_or-set_ne t (hash8 mac) (hash8 m) (insert_bucket mac iface now (get_or t (hash8 mac) []))
        [],
  )
]

pub insert_mac_port-IsValid :
    {t : Table} (mac : List ℕ) (iface now : ℕ)
    → IsValid t
    → IsValid (insert_mac_port mac iface now t)
unfolding insert_mac_port
insert_mac_port-IsValid {t} mac iface now v = record {
  buckets = length-set t (hash8 mac) _ ∙ v.buckets;
  distinct = λ h. elim (ℕ_discrete (hash8 mac) h) [
    | yes e ↦
        rw
          (
            ← e,
            get_or-set_self t (hash8 mac) (insert_bucket mac iface now (get_or t (hash8 mac) [])) []
                (omega (arith, v.buckets, hash8-lt mac)),
          )
          (insert_bucket-IsBucket (hash8 mac) mac iface now (get_or t (hash8 mac) []) refl
            (v.distinct (hash8 mac)))
    | no ne ↦
        rw
          (get_or-set_ne t (hash8 mac) h (insert_bucket mac iface now (get_or t (hash8 mac) [])) []
            ne)
          (v.distinct h)
  ];
}

get_or-sweep :
    (now : ℕ) (t : Table) (h : ℕ)
    → get_or (sweep_aged_mac_port_entry now t).1 h [] ≡ (sweep_bucket now (get_or t h [])).1
unfolding sweep_aged_mac_port_entry
get_or-sweep now [] h = refl
get_or-sweep now (b ∷ bs) zero = refl
get_or-sweep now (b ∷ bs) (suc h) = get_or-sweep now bs h

length-sweep : (now : ℕ) (t : Table) → length (sweep_aged_mac_port_entry now t).1 ≡ length t
unfolding sweep_aged_mac_port_entry
length-sweep now [] = refl
length-sweep now (b ∷ bs) = ap suc (length-sweep now bs)

-- Sweeping forgets exactly the addresses that have not been seen for more than 30 seconds.
pub find-sweep :
    {t : Table} (m : List ℕ) (now : ℕ)
    → IsValid t
    → find m (sweep_aged_mac_port_entry now t).1 ≡ still_fresh now (find m t)
unfolding find
find-sweep {t} m now v =
    rw (get_or-sweep now t (hash8 m))
      (find_entry-sweep_bucket m (hash8 m) now (get_or t (hash8 m) []) (v.distinct (hash8 m)))

pub sweep-IsValid : {t : Table} (now : ℕ) → IsValid t → IsValid (sweep_aged_mac_port_entry now t).1
sweep-IsValid {t} now v = record {
  buckets = length-sweep now t ∙ v.buckets;
  distinct =
      λ h. rw (get_or-sweep now t h) (sweep_bucket-IsBucket h now (get_or t h []) (v.distinct h));
}

pub entries : Table → ℕ
entries [] = 0
entries (b ∷ bs) = length b + entries bs

-- The count that sweeping returns is the number of entries that it removed.
pub entries-sweep :
    (now : ℕ) (t : Table)
    → (sweep_aged_mac_port_entry now t).0 + entries (sweep_aged_mac_port_entry now t).1 ≡ entries t
unfolding sweep_aged_mac_port_entry entries
entries-sweep now [] = refl
entries-sweep now (b ∷ bs) = omega (arith, entries-sweep now bs, length-sweep_bucket now b)

length-destroy : (t : Table) → length (destroy_buckets t) ≡ length t
unfolding destroy_buckets
length-destroy [] = refl
length-destroy (b ∷ bs) = ap suc (length-destroy bs)

get_or-destroy : (t : Table) (h : ℕ) → get_or (destroy_buckets t) h [] ≡ []
unfolding destroy_buckets
get_or-destroy [] h = refl
get_or-destroy (b ∷ bs) zero = refl
get_or-destroy (b ∷ bs) (suc h) = get_or-destroy bs h

-- Destroying the table forgets every address, and leaves a valid table.
pub destory_lem :
    {t : Table} (m : List ℕ)
    → IsValid t
    → (find m (destory_mac_port_table t) ≡ none) × IsValid (destory_mac_port_table t)
unfolding find destory_mac_port_table
destory_lem {t} m v = (
  rw (get_or-destroy t (hash8 m)) (find_entry-nil m),
  record {
    buckets = length-destroy t ∙ v.buckets;
    distinct = λ h. rw (get_or-destroy t h) (nil-IsBucket h);
  },
)
