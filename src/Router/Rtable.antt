-- ===== src/Router/Rtable.antt =====
-- code-exp5/rtable.c and longest_prefix_match of ip_base.c. The table is the list of its entries in
-- order; the functions run under its lock.
pub mod Prefix
pub mod Longest
use Prim.Native.Nat.{bit_and}
use mathlib.Core.Logic.{dite}
use mathlib.Core.WellFounded.{Acc}
use native.Mathlib.Decide.{dec_lt}
use njucn_lab.Common.{
  ℕ, zero, suc, ◌+◌, ◌/◌, ◌%◌, ◌<◌, List, [], ◌∷◌, ◌++◌, Option, none, some, Bool, ◌==◌, ltb,
  if◌then◌else◌, arith, lt_wf,
}

-- `iface_info_t`, without its file descriptor. `index` is its unique number, and stands for its address.
pub record Iface : Type 0 where
  pub index : ℕ
  pub mac : List ℕ
  pub ip : ℕ
  pub mask : ℕ
  pub name : List ℕ

-- `rt_entry_t`. Addresses are in host byte order; a gateway of 0 means a directly connected network.
pub record RtEntry : Type 0 where
  pub dest : ℕ
  pub mask : ℕ
  pub gw : ℕ
  pub flags : ℕ
  pub if_name : List ℕ
  pub iface : Iface

pub init_rtable : List RtEntry
init_rtable = []

unfoldable pub new_rt_entry : ℕ → ℕ → ℕ → Iface → RtEntry
new_rt_entry dest mask gw iface = record {
  dest = dest;
  mask = mask;
  gw = gw;
  flags = 0;
  if_name = iface.name;
  iface = iface;
}

pub add_rt_entry : RtEntry → List RtEntry → List RtEntry
add_rt_entry entry rtable = rtable ++ (entry ∷ [])

-- The entry is given by its place.
pub remove_rt_entry : ℕ → List RtEntry → List RtEntry
remove_rt_entry i [] = []
remove_rt_entry zero (entry ∷ rtable) = rtable
remove_rt_entry (suc i) (entry ∷ rtable) = entry ∷ remove_rt_entry i rtable

-- The entries are moved one by one from the front of the new table to the end of the old one: the new
-- table that is left, and the old one.
unfoldable pub load_rtable : List RtEntry → List RtEntry → List RtEntry × List RtEntry
load_rtable [] rtable = ([], rtable)
load_rtable (entry ∷ new_rtable) rtable = load_rtable new_rtable (rtable ++ (entry ∷ []))

unfoldable pub clear_rtable : List RtEntry → List RtEntry
clear_rtable [] = []
clear_rtable (entry ∷ rtable) = clear_rtable rtable

-- while (mask) { prefix_len += mask & 1; mask >>= 1; }
count_ones : (prefix_len mask : ℕ) → Acc ◌<◌ mask → ℕ
count_ones prefix_len mask (Acc.intro _ smaller) =
    dite (dec_lt 0 mask)
      (λ h. count_ones (prefix_len + mask % 2) (mask / 2) (smaller (mask / 2) (omega arith)))
      (λ _. prefix_len)

unfoldable pub prefix_len : ℕ → ℕ
unfolding count_ones lt_wf dec_lt
prefix_len mask = count_ones 0 mask (lt_wf.apply mask)

-- (dst & entry->mask) == (entry->dest & entry->mask)
unfoldable pub matches : ℕ → RtEntry → Bool
matches dst entry = bit_and dst entry.mask == bit_and entry.dest entry.mask

-- `max_len` is the source's `max_prefix_len` plus one, so that it starts from 0 and not from -1.
scan : ℕ → Option RtEntry → ℕ → List RtEntry → Option RtEntry
scan dst best_match max_len [] = best_match
scan dst best_match max_len (entry ∷ rtable) =
    let len = prefix_len entry.mask in
    let longer = scan dst (some entry) (len + 1) rtable in
    let same = scan dst best_match max_len rtable in
    if matches dst entry then (if ltb max_len (len + 1) then longer else same) else same

unfoldable pub longest_prefix_match : ℕ → List RtEntry → Option RtEntry
unfolding scan
longest_prefix_match dst rtable = scan dst none 0 rtable
