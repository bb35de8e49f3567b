-- ===== src/Mospf/Flood/Packets.antt =====
-- The packets that a router passes on.
use njucn_lab.Common.{
  ℕ, ◌+◌, ◌%◌, ◌^◌, ◌≤◌, ◌<◌, ◌≡◌, refl, inl, inr, sym, ap, subst, ◌∙◌, List, [], ◌∷◌, length,
  length-append, length-take, length-drop, get_or, slice, take, drop, drop-append, drop-blit, blit,
  length-blit, get_or-blit_in, get_or-blit_before, get_or-take, get_or-append_left, arith,
}
use njucn_lab.Net.Bytes.{be32, le16}
use njucn_lab.Net.Checksum.{checksum}
use njucn_lab.Router.Icmp.{ip_hdr_size, ip_daddr}
use njucn_lab.Router.Ip.{refresh_checksum}
use njucn_lab.Router.Ip.Header.{refresh-cells, refresh-length}
use njucn_lab.Mospf.Instance.{Nbr}
use njucn_lab.Mospf.Proto.{mospf_of}
use njucn_lab.Mospf.Flood.{lsu_ttl, on_message, with_ttl, age_lsu, lsu_copy}
use njucn_lab.Mospf.Flood.Copies.{IsCopy, with_ttl-IsCopy, IsCopy-trans}

-- A packet with an IP header and the fixed part of an update.
pub record HoldsLsu (packet : List ℕ) : Type 0 where
  pub ip_hdr : 20 ≤ ip_hdr_size packet
  pub long : 38 + ip_hdr_size packet ≤ length packet

module _ (f : List ℕ → List ℕ) (packet : List ℕ) (h : HoldsLsu packet) where
  front-length : length (take (14 + ip_hdr_size packet) packet) ≡ 14 + ip_hdr_size packet
  front-length = omega (arith, length-take (14 + ip_hdr_size packet) packet, h.long)

  -- The headers before the message stay.
  on_message-front :
      (i : ℕ) → i < 14 + ip_hdr_size packet → get_or (on_message f packet) i 0 ≡ get_or packet i 0
  on_message-front i l =
      get_or-append_left (take (14 + ip_hdr_size packet) packet) _ i 0
        (omega (arith, front-length, l))
      ∙ get_or-take (14 + ip_hdr_size packet) packet i 0 l

  on_message-hdr : ip_hdr_size (on_message f packet) ≡ ip_hdr_size packet
  on_message-hdr = omega (arith, on_message-front 14 (omega (arith, h.ip_hdr)))

  pub on_message-message : mospf_of (on_message f packet) ≡ f (mospf_of packet)
  on_message-message =
      let front = take (14 + ip_hdr_size packet) packet in
      ap (λ k. drop k (on_message f packet))
        (let q : 14 + ip_hdr_size (on_message f packet) ≡ length front + 0 =
            omega (arith, on_message-hdr, front-length) in
          q)
      ∙ drop-append front (f (mospf_of packet)) 0

  on_message-HoldsLsu :
      length (f (mospf_of packet)) ≡ length (mospf_of packet) → HoldsLsu (on_message f packet)
  on_message-HoldsLsu e = record {
    ip_hdr = omega (arith, on_message-hdr, h.ip_hdr);
    long = omega (
      arith,
      on_message-hdr,
      h.long,
      front-length,
      length-append (take (14 + ip_hdr_size packet) packet) (f (mospf_of packet)),
      e,
      length-drop (14 + ip_hdr_size packet) packet,
    );
  }

-- The checksum that refresh_checksum stores.
abbrev header_sum : List ℕ → List ℕ
header_sum p = le16 (checksum (slice (blit p 24 (0 ∷ 0 ∷ [])) 14 (ip_hdr_size p)) 0)

refresh-drop : (p : List ℕ) (n : ℕ) → 26 ≤ n → drop n (refresh_checksum p) ≡ drop n p
unfolding refresh_checksum
refresh-drop p n h = drop-blit p 24 n (header_sum p) h

module _ (n : Nbr) (packet : List ℕ) (h : HoldsLsu packet) where
  abbrev addressed : List ℕ
  addressed = refresh_checksum (blit packet 30 (be32 n.nbr_ip))

  addressed-hdr : ip_hdr_size addressed ≡ ip_hdr_size packet
  addressed-hdr = omega (
    arith,
    refresh-cells (blit packet 30 (be32 n.nbr_ip)) 14 (inl (omega arith)),
    get_or-blit_before packet 30 (be32 n.nbr_ip) 14 0 (omega arith),
  )

  addressed-message : mospf_of addressed ≡ mospf_of packet
  addressed-message =
      ap (λ k. drop (14 + k) addressed) addressed-hdr
      ∙ refresh-drop (blit packet 30 (be32 n.nbr_ip)) (14 + ip_hdr_size packet)
          (omega (arith, h.ip_hdr))
      ∙ drop-blit packet 30 (14 + ip_hdr_size packet) (be32 n.nbr_ip) (omega (arith, h.ip_hdr))

  addressed-HoldsLsu : HoldsLsu addressed
  addressed-HoldsLsu = record {
    ip_hdr = omega (arith, addressed-hdr, h.ip_hdr);
    long = omega (
      arith,
      addressed-hdr,
      h.long,
      refresh-length (blit packet 30 (be32 n.nbr_ip)),
      length-blit packet 30 (be32 n.nbr_ip),
    );
  }

  lsu_copy-message :
      mospf_of (lsu_copy n packet) ≡ with_ttl (lsu_ttl (mospf_of packet)) (mospf_of packet)
  unfolding lsu_copy
  lsu_copy-message =
      on_message-message (with_ttl (lsu_ttl (mospf_of packet))) addressed addressed-HoldsLsu
      ∙ ap (with_ttl (lsu_ttl (mospf_of packet))) addressed-message

  daddr-cell : (i : ℕ) → i < 4 → get_or (lsu_copy n packet) (30 + i) 0 ≡ get_or (be32 n.nbr_ip) i 0
  unfolding lsu_copy
  daddr-cell i l =
      on_message-front (with_ttl (lsu_ttl (mospf_of packet))) addressed addressed-HoldsLsu (30 + i)
        (omega (arith, addressed-hdr, h.ip_hdr))
      ∙ refresh-cells (blit packet 30 (be32 n.nbr_ip)) (30 + i) (inr (omega arith))
      ∙ get_or-blit_in packet 30 (be32 n.nbr_ip) (30 + i) i 0 refl l
          (omega (arith, h.ip_hdr, h.long))

  lsu_copy-daddr : n.nbr_ip < 2 ^ 32 → ip_daddr (lsu_copy n packet) ≡ n.nbr_ip
  lsu_copy-daddr b = omega (
    arith,
    b,
    daddr-cell 0 (omega arith),
    daddr-cell 1 (omega arith),
    daddr-cell 2 (omega arith),
    daddr-cell 3 (omega arith),
  )

pub mospf_of-length : (packet : List ℕ) → HoldsLsu packet → 24 ≤ length (mospf_of packet)
mospf_of-length packet h = omega (arith, h.long, length-drop (14 + ip_hdr_size packet) packet)

-- It holds an update in its turn.
pub passed_on-HoldsLsu :
    (n : Nbr) (packet : List ℕ)
    → HoldsLsu packet
    → HoldsLsu (lsu_copy n (on_message age_lsu packet))
unfolding age_lsu lsu_copy
passed_on-HoldsLsu n packet h =
    let msg = mospf_of packet in
    let one = with_ttl-IsCopy ((lsu_ttl msg + 255) % 256) msg (mospf_of-length packet h) in
    let aged = on_message age_lsu packet in
    let holds = on_message-HoldsLsu age_lsu packet h one.size in
    let sent = addressed-HoldsLsu n aged holds in
    let ttl = lsu_ttl (mospf_of aged) in
    on_message-HoldsLsu (with_ttl ttl) (addressed n aged holds) sent
      (with_ttl-IsCopy ttl (mospf_of (addressed n aged holds))
        (mospf_of-length (addressed n aged holds) sent)).size

-- The packet that a neighbour gets, when a packet with an update comes in: it is addressed to the
-- neighbour, and its message is the one that came in, with one hop less to live (from 0 to 255) and a
-- checksum that is right.
pub passed_on :
    (n : Nbr) (packet : List ℕ)
    → HoldsLsu packet
    → n.nbr_ip < 2 ^ 32
    → let copy = lsu_copy n (on_message age_lsu packet) in
      (ip_daddr copy ≡ n.nbr_ip)
      × IsCopy ((lsu_ttl (mospf_of packet) + 255) % 256) (mospf_of packet) (mospf_of copy)
unfolding age_lsu
passed_on n packet h b =
    let msg = mospf_of packet in
    let ttl = (lsu_ttl msg + 255) % 256 in
    let one = with_ttl-IsCopy ttl msg (mospf_of-length packet h) in
    let aged = on_message age_lsu packet in
    let holds = on_message-HoldsLsu age_lsu packet h one.size in
    let m : mospf_of aged ≡ with_ttl ttl msg = on_message-message age_lsu packet h in
    let two =
      with_ttl-IsCopy (lsu_ttl (mospf_of aged)) (mospf_of aged) (mospf_of-length aged holds) in
    let t : lsu_ttl (mospf_of aged) ≡ ttl = ap lsu_ttl m ∙ one.time in
    (
      lsu_copy-daddr n aged holds b,
      IsCopy-trans one (
          subst (λ k. IsCopy k (with_ttl ttl msg) (mospf_of (lsu_copy n aged))) t
            (subst (λ x. IsCopy (lsu_ttl (mospf_of aged)) x (mospf_of (lsu_copy n aged))) m
              (subst (IsCopy (lsu_ttl (mospf_of aged)) (mospf_of aged))
                (sym (lsu_copy-message n aged holds)) two))),
    )
