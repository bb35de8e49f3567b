-- ===== src/Switch/MacTable.antt =====
-- code-exp9/mac.c: the table that maps a hardware address to the port behind which it was seen. Each
-- operation runs under the table's lock; the current time is an argument.
pub mod Bucket
pub mod Map
use njucn_lab.Common.{
  ℕ, ◌+◌, ◌-◌, List, [], ◌∷◌, ◌++◌, Bool, true, false, Option, none, some, get_or, set, replicate,
  ltb, if◌then◌else◌,
}
use njucn_lab.Switch.Hash.{hash8, mac_eq}

-- An interface is named by a number in place of its address in memory.
pub record Entry : Type 0 where
  pub mac : List ℕ
  pub iface : ℕ
  pub visited : ℕ

-- `hash_table` of `mac_port_map_t`.
abbrev pub Table : Type 0
Table = List (List Entry)

unfoldable pub init_mac_port_table : Table
init_mac_port_table = replicate 256 []

destroy_buckets : Table → Table
destroy_buckets [] = []
destroy_buckets (b ∷ bs) = [] ∷ destroy_buckets bs

pub destory_mac_port_table : Table → Table
unfolding destroy_buckets
destory_mac_port_table t = destroy_buckets t

unfoldable pub lookup_bucket : List ℕ → List Entry → Option ℕ
lookup_bucket mac [] = none
lookup_bucket mac (e ∷ es) = if mac_eq e.mac mac then some e.iface else lookup_bucket mac es

unfoldable pub lookup_port : List ℕ → Table → Option ℕ
unfolding lookup_bucket
lookup_port mac t = lookup_bucket mac (get_or t (hash8 mac) [])

-- The loop of the insertion: the first entry of the address is refreshed, and `find` is set.
refresh : List ℕ → ℕ → ℕ → List Entry → List Entry × Bool
refresh mac iface now [] = ([], false)
refresh mac iface now (e ∷ es) =
    let (es', find) = refresh mac iface now es in
    if mac_eq e.mac mac
    then (record e { iface = iface; visited = now } ∷ es, true)
    else (e ∷ es', find)

pub insert_bucket : List ℕ → ℕ → ℕ → List Entry → List Entry
unfolding refresh
insert_bucket mac iface now es =
    let (es', find) = refresh mac iface now es in
    if find then es' else es' ++ (record { mac = mac; iface = iface; visited = now } ∷ [])

unfoldable pub insert_mac_port : List ℕ → ℕ → ℕ → Table → Table
unfolding insert_bucket
insert_mac_port mac iface now t =
    set t (hash8 mac) (insert_bucket mac iface now (get_or t (hash8 mac) []))

abbrev pub mac_port_timeout : ℕ
mac_port_timeout = 30

-- Time does not run backwards past an entry, or the entry counts as fresh.
abbrev pub is_aged : ℕ → Entry → Bool
is_aged now e = ltb mac_port_timeout (now - e.visited)

pub sweep_bucket : ℕ → List Entry → ℕ × List Entry
sweep_bucket now [] = (0, [])
sweep_bucket now (e ∷ es) =
    let (count, es') = sweep_bucket now es in
    if is_aged now e then (count + 1, es') else (count, e ∷ es')

-- How many entries were removed, and the table afterwards.
pub sweep_aged_mac_port_entry : ℕ → Table → ℕ × Table
unfolding sweep_bucket
sweep_aged_mac_port_entry now [] = (0, [])
sweep_aged_mac_port_entry now (b ∷ bs) =
    let (n, b') = sweep_bucket now b in
    let (count, bs') = sweep_aged_mac_port_entry now bs in (n + count, b' ∷ bs')
