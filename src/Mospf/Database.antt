-- ===== src/Mospf/Database.antt =====
-- The link state database of code-exp7: mospf_database.c, include/mospf_database.h, and the steps of
-- mospf_daemon.c that change it.
pub mod Newest
use njucn_lab.Common.{
  ℕ, ◌-◌, ◌%◌, ◌^◌, List, [], ◌∷◌, Bool, true, false, ltb, ◌==◌, ◌||◌, if◌then◌else◌,
}

-- struct mospf_lsa
pub record Lsa : Type 0 where
  pub network : ℕ
  pub mask : ℕ
  pub rid : ℕ

-- `array` has `nadv` entries.
pub record DbEntry : Type 0 where
  pub rid : ℕ
  pub seq : ℕ
  pub alive : ℕ
  pub array : List Lsa

-- What handle_mospf_lsu reads from a packet.
pub record Lsu : Type 0 where
  pub rid : ℕ
  pub seq : ℕ
  pub array : List Lsa

abbrev pub mospf_database_timeout : ℕ
mospf_database_timeout = 40

unfoldable pub init_mospf_db : List DbEntry
init_mospf_db = []

abbrev pub entry_of : Lsu → DbEntry
entry_of u = record { rid = u.rid; seq = u.seq; alive = mospf_database_timeout; array = u.array }

-- The search for the router's entry and what is done with it: a new entry at the end, new contents for
-- a greater sequence number, or only a longer life. The Bool says that routes are computed anew.
unfoldable pub install_lsu : Lsu → List DbEntry → List DbEntry × Bool
install_lsu u [] = (entry_of u ∷ [], true)
install_lsu u (e ∷ es) =
    let rest = install_lsu u es in
    if e.rid == u.rid
    then if ltb e.seq u.seq
      then (entry_of u ∷ es, true)
      else (record e { alive = mospf_database_timeout } ∷ es, false)
    else (e ∷ rest.0, rest.1)

-- handle_mospf_lsu ignores the router's own packets.
unfoldable pub handle_lsu : ℕ → Lsu → List DbEntry → List DbEntry × Bool
handle_lsu router_id u db = if u.rid == router_id then (db, false) else install_lsu u db

-- A pass of checking_database_thread.
unfoldable pub check_database : List DbEntry → List DbEntry × Bool
check_database [] = ([], false)
check_database (e ∷ es) =
    let rest = check_database es in
    let alive = e.alive - 1 in
    if alive == 0 then (rest.0, true) else (record e { alive = alive } ∷ rest.0, rest.1)
