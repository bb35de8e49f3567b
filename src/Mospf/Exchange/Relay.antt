-- ===== src/Mospf/Exchange/Relay.antt =====
-- An update that is passed on from router to router.
use njucn_lab.Common.{
  ℕ, ◌+◌, ◌*◌, ◌^◌, ◌≤◌, ◌<◌, ◌≡◌, ◌≢◌, inl, inr, sym, ap, ◌∙◌, List, [], ◌∷◌, ◌++◌, some, ◌>>=◌,
  length, length-append, drop, get_or, arith,
}
use njucn_lab.Net.Bytes.{be16, get32}
use njucn_lab.Router.Rtable.{Iface, RtEntry}
use njucn_lab.Router.Icmp.{ip_init_hdr}
use njucn_lab.Mospf.Database.{Lsu}
use njucn_lab.Mospf.Instance.{Nbr, Instance}
use njucn_lab.Mospf.Proto.{
  mospf_version, mospf_type_lsu, ipproto_mospf, mospf_lsu_front, mospf_checksum, store_checksum,
  mospf_rid, mospf_of, mospf_packet, read_u16, read_lsas, lsas_bytes,
}
use njucn_lab.Mospf.Lsu.{all_lsas, count_lsas, generate_mospf_lsu}
use njucn_lab.Mospf.Flood.{
  lsu_seq, lsu_nadv, on_message, age_lsu, lsu_copy, flood, handle_mospf_packet,
}
use njucn_lab.Mospf.Flood.Packets.{HoldsLsu, passed_on, passed_on-HoldsLsu}
use njucn_lab.Mospf.Exchange.Frames.{message-checks, message_fields, packet-message, hdr_size}
use njucn_lab.Mospf.Exchange.Update.{
  AllWords, taken, advert, update_accepted, update_fields, count_lsas-length, read_lsas-lsas_bytes,
}

-- A packet that carries the advertisement `u` within an area.
pub record Carries (u : Lsu) (aid : ℕ) (packet : List ℕ) : Type 0 where
  pub holds : HoldsLsu packet
  pub version : get_or (mospf_of packet) 0 0 ≡ mospf_version
  pub type : get_or (mospf_of packet) 1 0 ≡ mospf_type_lsu
  pub checks : mospf_checksum (mospf_of packet) ≡ read_u16 (mospf_of packet) 12
  pub area : get32 (mospf_of packet) 8 ≡ aid
  pub rid : mospf_rid (mospf_of packet) ≡ u.rid
  pub seq : lsu_seq (mospf_of packet) ≡ u.seq
  pub links : read_lsas (lsu_nadv (mospf_of packet)) (drop 24 (mospf_of packet)) ≡ some u.array

-- The packet that the neighbour `n` gets when the packet is passed on.
abbrev pub relay : Nbr → List ℕ → List ℕ
relay n packet = lsu_copy n (on_message age_lsu packet)

-- The packet after it was passed on to one neighbour after the other.
abbrev pub relayed : List Nbr → List ℕ → List ℕ
relayed [] packet = packet
relayed (n ∷ ns) packet = relayed ns (relay n packet)

-- All addresses are 32 bits wide.
abbrev pub Addressable : List Nbr → Type 0
Addressable [] = Unit {0}
Addressable (n ∷ ns) = (n.nbr_ip < 2 ^ 32) × Addressable ns

Carries-relay :
    (u : Lsu) (aid : ℕ) (n : Nbr) (packet : List ℕ)
    → n.nbr_ip < 2 ^ 32
    → Carries u aid packet
    → Carries u aid (relay n packet)
Carries-relay u aid n packet b c =
    let k = (passed_on n packet c.holds b).1 in
    let msg = mospf_of packet in
    let copy = mospf_of (relay n packet) in
    let nadv : lsu_nadv copy ≡ lsu_nadv msg = omega (
      arith,
      k.cells 20 (inr (omega arith)) (λ e. omega (arith, e)),
      k.cells 21 (inr (omega arith)) (λ e. omega (arith, e)),
      k.cells 22 (inr (omega arith)) (λ e. omega (arith, e)),
      k.cells 23 (inr (omega arith)) (λ e. omega (arith, e)),
    ) in
    record {
      holds = passed_on-HoldsLsu n packet c.holds;
      version = k.cells 0 (inl (omega arith)) (λ e. omega (arith, e)) ∙ c.version;
      type = k.cells 1 (inl (omega arith)) (λ e. omega (arith, e)) ∙ c.type;
      checks = k.checks;
      area = omega (
        arith,
        c.area,
        k.cells 8 (inl (omega arith)) (λ e. omega (arith, e)),
        k.cells 9 (inl (omega arith)) (λ e. omega (arith, e)),
        k.cells 10 (inl (omega arith)) (λ e. omega (arith, e)),
        k.cells 11 (inl (omega arith)) (λ e. omega (arith, e)),
      );
      rid = omega (
        arith,
        c.rid,
        k.cells 4 (inl (omega arith)) (λ e. omega (arith, e)),
        k.cells 5 (inl (omega arith)) (λ e. omega (arith, e)),
        k.cells 6 (inl (omega arith)) (λ e. omega (arith, e)),
        k.cells 7 (inl (omega arith)) (λ e. omega (arith, e)),
      );
      seq = omega (
        arith,
        c.seq,
        k.cells 16 (inr (omega arith)) (λ e. omega (arith, e)),
        k.cells 17 (inr (omega arith)) (λ e. omega (arith, e)),
      );
      links =
          ap (λ x. read_lsas x (drop 24 copy)) nadv
          ∙ ap (read_lsas (lsu_nadv msg)) k.rest
          ∙ c.links;
    }

Carries-relayed :
    (u : Lsu) (aid : ℕ) (ns : List Nbr) (packet : List ℕ)
    → Addressable ns
    → Carries u aid packet
    → Carries u aid (relayed ns packet)
Carries-relayed u aid [] packet b c = c
Carries-relayed u aid (n ∷ ns) packet b c =
    Carries-relayed u aid ns (relay n packet) b.1 (Carries-relay u aid n packet b.0 c)

-- What a router needs for its update to be well-formed: all numbers fit their fields.
pub record FitsFields (a : Instance) : Type 0 where
  pub rid : a.router_id < 2 ^ 32
  pub aid : a.area_id < 2 ^ 32
  pub seq : a.sequence_num < 2 ^ 16
  pub nadv : count_lsas a.iface_list < 2 ^ 32
  pub links : AllWords (all_lsas a.router_id a.iface_list)

generate-length : (a : Instance) → 24 ≤ length (generate_mospf_lsu a)
unfolding generate_mospf_lsu store_checksum
generate-length a = omega arith

packet-HoldsLsu :
    (id daddr : ℕ) (from : Iface) (a : Instance)
    → length from.mac ≡ 6
    → HoldsLsu (mospf_packet id from daddr (generate_mospf_lsu a))
unfolding ip_init_hdr
packet-HoldsLsu id daddr from a six =
    let msg = generate_mospf_lsu a in
    let hdr = hdr_size id from daddr msg six in
    let rest =
      be16 0x0800 ++ (ip_init_hdr id from.ip daddr (20 + length msg) ipproto_mospf ++ msg) in
    record {
      ip_hdr = omega (arith, hdr);
      long = omega (arith, hdr, six, length-append from.mac rest, generate-length a);
    }

Carries-generate :
    (id daddr : ℕ) (from : Iface) (a : Instance)
    → length from.mac ≡ 6
    → FitsFields a
    → Carries (advert a) a.area_id (mospf_packet id from daddr (generate_mospf_lsu a))
unfolding generate_mospf_lsu
Carries-generate id daddr from a six h =
    let nadv = count_lsas a.iface_list in
    let ls = all_lsas a.router_id a.iface_list in
    let body = mospf_lsu_front a.sequence_num nadv ++ lsas_bytes ls in
    let msg = generate_mospf_lsu a in
    let m = packet-message id from daddr msg six in
    let f = message_fields mospf_type_lsu (24 + nadv * 12) a.router_id a.area_id body h.rid h.aid in
    let (seq, n, bytes) = update_fields a h.seq h.nadv in
    record {
      holds = packet-HoldsLsu id daddr from a six;
      version = ap (λ x. get_or x 0 0) m ∙ f.0;
      type = ap (λ x. get_or x 1 0) m ∙ f.1;
      checks =
          ap mospf_checksum m
          ∙ (message-checks mospf_type_lsu (24 + nadv * 12) a.router_id a.area_id body
              ∙ sym (ap (λ x. read_u16 x 12) m));
      area = ap (λ x. get32 x 8) m ∙ f.3;
      rid = ap mospf_rid m ∙ f.2;
      seq = ap lsu_seq m ∙ seq;
      links =
          ap (λ x. read_lsas (lsu_nadv x) (drop 24 x)) m
          ∙ ap (λ k. read_lsas k (drop 24 msg))
              (n ∙ sym (count_lsas-length a.router_id a.iface_list))
          ∙ ap (read_lsas (length ls)) bytes
          ∙ read_lsas-lsas_bytes ls h.links;
    }

-- The update of the router `a`, however often it was passed on and by whomever, as it comes in at a router
-- of the same area: it passes all checks, the database takes in the number, the sequence number and all
-- links of the sender, the routes are computed anew if that is news, and the packet is passed on.
pub update-arrives :
    (kernel : List RtEntry) (id daddr : ℕ) (from to : Iface) (ns : List Nbr) (a b : Instance)
    → length from.mac ≡ 6
    → FitsFields a
    → Addressable ns
    → a.area_id ≡ b.area_id
    → a.router_id ≢ b.router_id
    → let packet = relayed ns (mospf_packet id from daddr (generate_mospf_lsu a)) in
      handle_mospf_packet kernel to packet b
      ≡ (taken kernel (advert a) b >>= λ s. some (flood to packet s))
update-arrives kernel id daddr from to ns a b six h words area other =
    let packet = relayed ns (mospf_packet id from daddr (generate_mospf_lsu a)) in
    let c =
      Carries-relayed (advert a) a.area_id ns (mospf_packet id from daddr (generate_mospf_lsu a))
        words (Carries-generate id daddr from a six h) in
    update_accepted kernel to packet b (advert a) c.version c.type c.checks (c.area ∙ area) c.rid
      other c.seq c.links
