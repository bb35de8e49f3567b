-- ===== src/Switch/MacTable/Bucket.antt =====
-- One bucket of the table in code-exp9/mac.c as a finite map from addresses to entries.
use njucn_lab.Common.{
  ltb, ◌+◌, ℕ, ◌+◌, ◌≡◌, refl, List, [], ◌∷◌, Option, none, some, length, if◌then◌else◌, arith,
}
use njucn_lab.Switch.Hash.{mac_eq, mac_eq_iff, hash8}
use njucn_lab.Switch.MacTable.{Entry, lookup_bucket, insert_bucket, sweep_bucket}

-- The entry of an address.
pub find_entry : List ℕ → List Entry → Option Entry
find_entry mac [] = none
find_entry mac (e ∷ es) = if mac_eq e.mac mac then some e else find_entry mac es

abbrev pub iface_of : Option Entry → Option ℕ
iface_of none = none
iface_of (some e) = some e.iface

-- No address has two entries, and each entry is in the bucket of its hash.
pub IsBucket : ℕ → List Entry → Type 0
IsBucket h [] = Unit
IsBucket h (e ∷ es) = (find_entry e.mac es ≡ none) × (hash8 e.mac ≡ h) × IsBucket h es

-- What a timeout of 30 seconds leaves of a search's result.
abbrev pub still_fresh : ℕ → Option Entry → Option Entry
still_fresh now none = none
still_fresh now (some e) = if ltb (e.visited + 30) now then none else some e

pub lookup_bucket-find_entry :
    (mac : List ℕ) (es : List Entry) → lookup_bucket mac es ≡ iface_of (find_entry mac es)
unfolding lookup_bucket find_entry
lookup_bucket-find_entry mac [] = refl
lookup_bucket-find_entry mac (e ∷ es) = ground (arith, lookup_bucket-find_entry mac es)

pub find_entry-insert_bucket :
    (m mac : List ℕ) (iface now : ℕ) (es : List Entry)
    → find_entry m (insert_bucket mac iface now es) ≡ (
        if mac_eq mac m
        then some (record { mac = mac; iface = iface; visited = now })
        else find_entry m es)
unfolding find_entry insert_bucket
find_entry-insert_bucket m mac iface now [] = refl
find_entry-insert_bucket m mac iface now (e ∷ es) = ground (
  arith,
  mac_eq_iff e.mac mac,
  mac_eq_iff e.mac m,
  mac_eq_iff mac m,
  find_entry-insert_bucket m mac iface now es,
)

pub insert_bucket-IsBucket :
    (h : ℕ) (mac : List ℕ) (iface now : ℕ) (es : List Entry)
    → hash8 mac ≡ h
    → IsBucket h es
    → IsBucket h (insert_bucket mac iface now es)
unfolding IsBucket insert_bucket find_entry
insert_bucket-IsBucket h mac iface now [] e v = ground arith
insert_bucket-IsBucket h mac iface now (e ∷ es) q v = ground (
  arith,
  insert_bucket-IsBucket h mac iface now es q,
  find_entry-insert_bucket e.mac mac iface now es,
  mac_eq_iff e.mac mac,
  mac_eq_iff mac e.mac,
)

find_entry-sweep_none :
    (m : List ℕ) (now : ℕ) (es : List Entry)
    → find_entry m es ≡ none
    → find_entry m (sweep_bucket now es).1 ≡ none
unfolding find_entry sweep_bucket
find_entry-sweep_none m now [] h = refl
find_entry-sweep_none m now (e ∷ es) h = ground (arith, find_entry-sweep_none m now es)

pub find_entry-sweep_bucket :
    (m : List ℕ) (h now : ℕ) (es : List Entry)
    → IsBucket h es
    → find_entry m (sweep_bucket now es).1 ≡ still_fresh now (find_entry m es)
unfolding find_entry sweep_bucket IsBucket
find_entry-sweep_bucket m h now [] v = refl
find_entry-sweep_bucket m h now (e ∷ es) v =
    ground (
      arith,
      mac_eq_iff e.mac m,
      find_entry-sweep_bucket m h now es,
      find_entry-sweep_none m now es,
    )

pub sweep_bucket-IsBucket :
    (h now : ℕ) (es : List Entry) → IsBucket h es → IsBucket h (sweep_bucket now es).1
unfolding IsBucket sweep_bucket
sweep_bucket-IsBucket h now [] v = tt
sweep_bucket-IsBucket h now (e ∷ es) v =
    ground (arith, sweep_bucket-IsBucket h now es, find_entry-sweep_none e.mac now es)

pub length-sweep_bucket :
    (now : ℕ) (es : List Entry)
    → (sweep_bucket now es).0 + length (sweep_bucket now es).1 ≡ length es
unfolding sweep_bucket
length-sweep_bucket now [] = refl
length-sweep_bucket now (e ∷ es) = ground (arith, length-sweep_bucket now es)

pub nil-IsBucket : (h : ℕ) → IsBucket h []
unfolding IsBucket
nil-IsBucket h = tt

pub find_entry-nil : (mac : List ℕ) → find_entry mac [] ≡ none
unfolding find_entry
find_entry-nil mac = refl
