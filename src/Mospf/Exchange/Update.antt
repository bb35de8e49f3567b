-- ===== src/Mospf/Exchange/Update.antt =====
-- A link state update of one router, as another one takes it.
use njucn_lab.Common.{
  ℕ, ◌+◌, ◌^◌, ◌<◌, ◌≡◌, ◌≢◌, refl, inl, inr, sym, ap, ◌∙◌, List, [], ◌∷◌, Option, some, false,
  ◌>>=◌, length, length-append, length-map, drop, get_or, Bool-cases, ltb, eq→==, ◌==◌, arith,
  if◌then◌else◌,
}
use njucn_lab.Mospf.Database.{DbEntry, Lsa, Lsu, install_lsu}
use njucn_lab.Mospf.Instance.{NbrIface, Instance}
use njucn_lab.Net.Bytes.{get32}
use njucn_lab.Router.Rtable.{Iface, RtEntry}
use njucn_lab.Mospf.Routes.{spf_run}
use njucn_lab.Mospf.Proto.{
  mospf_version, mospf_type_hello, mospf_type_lsu, store_checksum, mospf_checksum, mospf_rid,
  mospf_of, read_u16, lsas_bytes, read_lsas,
}
use njucn_lab.Mospf.Flood.{
  lsu_of, lsu_seq, lsu_nadv, flood, learn_lsu, handle_mospf_lsu, handle_mospf_packet,
}
use njucn_lab.Mospf.Lsu.{iface_lsas, all_lsas, count_lsas, generate_mospf_lsu}

abbrev pub AllWords : List Lsa → Type 0
AllWords [] = Unit {0}
AllWords (l ∷ ls) = ((l.network < 2 ^ 32) × (l.mask < 2 ^ 32) × (l.rid < 2 ^ 32)) × AllWords ls

-- Advertisements that are written are read back.
pub read_lsas-lsas_bytes :
    (ls : List Lsa) → AllWords ls → read_lsas (length ls) (lsas_bytes ls) ≡ some ls
unfolding read_lsas lsas_bytes
read_lsas-lsas_bytes [] h = refl
read_lsas-lsas_bytes (l ∷ ls) h =
    let enough : ltb (12 + length (lsas_bytes ls)) 12 ≡ false = ground arith in
    ground (arith, read_lsas-lsas_bytes ls h.1)

iface_lsas-length :
    (r : ℕ) (i : NbrIface)
    → length (iface_lsas r i) ≡ (if i.num_nbr == 0 then 1 else length i.nbr_list)
unfolding iface_lsas
iface_lsas-length r i = elim (Bool-cases (i.num_nbr == 0)) [
  | inl t ↦ rw t refl
  | inr t ↦ rw t (length-map i.nbr_list _)
]

-- The first loop counts what the second one fills in.
pub count_lsas-length : (r : ℕ) (is : List NbrIface) → length (all_lsas r is) ≡ count_lsas is
unfolding all_lsas count_lsas
count_lsas-length r [] = refl
count_lsas-length r (i ∷ is) = omega (
  arith,
  length-append (iface_lsas r i) (all_lsas r is),
  iface_lsas-length r i,
  count_lsas-length r is,
)

-- Whether an update is news does not depend on what it advertises.
install-news :
    (u : Lsu) (ls : List Lsa) (db : List DbEntry)
    → ((install_lsu (record u { array = ls }) db).1 ≡ (install_lsu u db).1)
      × ((install_lsu u db).1 ≡ false
          → (install_lsu (record u { array = ls }) db).0 ≡ (install_lsu u db).0)
unfolding install_lsu
install-news u ls [] = (refl, λ e. cc)
install-news u ls (e ∷ es) = elim (Bool-cases (e.rid == u.rid)) [
  | inl t ↦ elim (Bool-cases (ltb e.seq u.seq)) [
    | inl l ↦ rw (t, l) (refl, λ q. cc)
    | inr l ↦ rw (t, l) (refl, λ q. refl)
  ]
  | inr t ↦ let w = install-news u ls es in rw t (w.0, λ q. ap (λ x. e ∷ x) (w.1 q))
]

-- What a router advertises: its number, its sequence number, and its links.
abbrev pub advert : Instance → Lsu
advert a = record {
  rid = a.router_id;
  seq = a.sequence_num;
  array = all_lsas a.router_id a.iface_list;
}

-- An update that is read whole: the database takes it in, and the routes are computed anew if it is news.
abbrev pub taken : List RtEntry → Lsu → Instance → Option Instance
taken kernel u s =
    let routed = spf_run kernel (record s { mospf_db = (install_lsu u s.mospf_db).0 }) in
    if (install_lsu u s.mospf_db).1
    then routed
    else some (record s { mospf_db = (install_lsu u s.mospf_db).0 })

learn_lsu-taken :
    (kernel : List RtEntry) (msg : List ℕ) (s : Instance) (ls : List Lsa)
    → read_lsas (lsu_nadv msg) (drop 24 msg) ≡ some ls
    → learn_lsu kernel msg s ≡ taken kernel (lsu_of msg ls) s
unfolding learn_lsu
learn_lsu-taken kernel msg s ls e =
    let w = install-news (lsu_of msg []) ls s.mospf_db in
    elim (Bool-cases (install_lsu (lsu_of msg []) s.mospf_db).1) [
      | inl t ↦ rw (learn_lsu, t, e, w.0 ∙ t) refl
      | inr t ↦
          rw (learn_lsu, t, w.0 ∙ t) (ap (λ db. some (record s { mospf_db = db })) (sym (w.1 t)))
    ]

-- A packet whose fields are right is handled as an update.
pub update_accepted :
    (kernel : List RtEntry) (to : Iface) (packet : List ℕ) (s : Instance) (u : Lsu)
    → get_or (mospf_of packet) 0 0 ≡ mospf_version
    → get_or (mospf_of packet) 1 0 ≡ mospf_type_lsu
    → mospf_checksum (mospf_of packet) ≡ read_u16 (mospf_of packet) 12
    → get32 (mospf_of packet) 8 ≡ s.area_id
    → mospf_rid (mospf_of packet) ≡ u.rid
    → u.rid ≢ s.router_id
    → lsu_seq (mospf_of packet) ≡ u.seq
    → read_lsas (lsu_nadv (mospf_of packet)) (drop 24 (mospf_of packet)) ≡ some u.array
    → handle_mospf_packet kernel to packet s
      ≡ (taken kernel u s >>= λ s'. some (flood to packet s'))
unfolding handle_mospf_packet handle_mospf_lsu
update_accepted kernel to packet s u v t c a r n q ls =
    let msg = mospf_of packet in
    let other : (get_or msg 1 0 == mospf_type_hello) ≡ false = ground (arith, t) in
    let foreign : (mospf_rid msg == s.router_id) ≡ false = ground (arith, r, n) in
    rw
      (
        handle_mospf_packet,
        eq→== v,
        eq→== (sym c),
        eq→== a,
        other,
        eq→== t,
        handle_mospf_lsu,
        eq→== c,
        foreign,
        learn_lsu-taken kernel msg s u.array ls,
        r,
        q,
      )
      refl

-- The fields of an update.
pub update_fields :
    (a : Instance)
    → a.sequence_num < 2 ^ 16
    → count_lsas a.iface_list < 2 ^ 32
    → (lsu_seq (generate_mospf_lsu a) ≡ a.sequence_num)
      × (lsu_nadv (generate_mospf_lsu a) ≡ count_lsas a.iface_list)
      × (drop 24 (generate_mospf_lsu a) ≡ lsas_bytes (all_lsas a.router_id a.iface_list))
unfolding generate_mospf_lsu store_checksum mospf_checksum
update_fields a h k = (omega (arith, h), omega (arith, k), refl)
