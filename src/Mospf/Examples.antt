-- ===== src/Mospf/Examples.antt =====
-- A database of two routers.
use njucn_lab.Common.{ℕ, ◌≡◌, refl, List, [], ◌∷◌, some, true, arith}
use njucn_lab.Mospf.Database.{DbEntry, Lsu, Lsa, install_lsu, handle_lsu, check_database}
use njucn_lab.Mospf.Database.Newest.{Newest, advertised, handle_all, handle_all-Newest}

abbrev link : ℕ → Lsa
link rid = record { network = 0x0a000000; mask = 0xffffff00; rid = rid }

abbrev db : List DbEntry
db = record { rid = 3; seq = 7; alive = 1; array = link 2 ∷ [] } ∷ []

-- A newer packet that overtakes an older one.
abbrev packets : List Lsu
packets =
    record { rid = 2; seq = 4; array = link 3 ∷ [] }
    ∷ record { rid = 2; seq = 2; array = [] }
    ∷ record { rid = 1; seq = 9; array = [] }
    ∷ []

aged : check_database db ≡ ([], true)
unfolding check_database
aged = refl

newest_kept : advertised 2 (handle_all 1 packets db) ≡ some (4, link 3 ∷ [])
unfolding advertised handle_all handle_lsu install_lsu
newest_kept = refl

handle_all-Newest_example :
    Newest 2 packets (advertised 2 db) (advertised 2 (handle_all 1 packets db))
handle_all-Newest_example = handle_all-Newest 1 2 packets db (omega arith)
