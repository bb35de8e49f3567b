-- ===== src/Mospf/Exchange/Frames.antt =====
-- The fields of a message, and of the packet that carries it.
use njucn_lab.Common.{
  ℕ, suc, ◌+◌, ◌^◌, ◌<◌, ◌≡◌, refl, ap, ◌∙◌, List, ◌++◌, length, get_or, get_or-append_right,
  drop-append, drop, take, arith,
}
use njucn_lab.Net.Bytes.{be16, get16, get32}
use njucn_lab.Net.Checksum.Verify.{checksum_late-lt}
use njucn_lab.Router.Rtable.{Iface}
use njucn_lab.Router.Icmp.{ip_init_hdr, ip_hdr_size, ip_saddr}
use njucn_lab.Mospf.Proto.{
  mospf_init_hdr, mospf_checksum, store_checksum, mospf_rid, read_u16, mospf_of, mospf_packet,
}

module _ (type len rid aid : ℕ) (body : List ℕ) where
  abbrev pub message : List ℕ
  message = store_checksum (mospf_init_hdr type len rid aid body)

  -- A message that is sent passes the check of the receiver.
  pub message-checks : (mospf_checksum message ≡ read_u16 message 12)
  unfolding store_checksum mospf_checksum
  message-checks =
      omega (
        arith,
        checksum_late-lt (take (get16 (be16 len) 0) (mospf_init_hdr type len rid aid body)) 0,
      )

  -- Its fields are those that were put in.
  pub message_fields :
      rid < 2 ^ 32
      → aid < 2 ^ 32
      → (get_or message 0 0 ≡ 2)
        × (get_or message 1 0 ≡ type)
        × (mospf_rid message ≡ rid)
        × (get32 message 8 ≡ aid)
  unfolding store_checksum mospf_checksum
  message_fields h k = (refl, refl, omega (arith, h), omega (arith, k))

  pub message-body : drop 16 message ≡ body
  unfolding store_checksum mospf_checksum
  message-body = refl

module _ (id : ℕ) (iface : Iface) (daddr : ℕ) (msg : List ℕ) (six : length iface.mac ≡ 6) where
  abbrev pub packet : List ℕ
  packet = mospf_packet id iface daddr msg

  -- The rest of the packet behind the ethernet header.
  packet-at :
      (i : ℕ)
      → get_or packet (14 + i) 0
        ≡ get_or (ip_init_hdr id iface.ip daddr (20 + length msg) 90 ++ msg) i 0
  packet-at i =
      ap (λ k. get_or packet k 0)
        (let q : 14 + i ≡ suc (suc (suc (suc (suc (suc (length iface.mac + suc (suc i))))))) =
            omega (arith, six) in
          q)
      ∙ get_or-append_right iface.mac
          (be16 0x0800 ++ (ip_init_hdr id iface.ip daddr (20 + length msg) 90 ++ msg))
          (length iface.mac + suc (suc i)) (suc (suc i)) 0 refl

  pub packet-saddr : iface.ip < 2 ^ 32 → ip_saddr packet ≡ iface.ip
  unfolding ip_init_hdr
  packet-saddr h = omega (arith, h, packet-at 12, packet-at 13, packet-at 14, packet-at 15)

  pub hdr_size : 14 + ip_hdr_size packet ≡ 34
  unfolding ip_init_hdr
  hdr_size = omega (arith, packet-at 0)

  pub packet-message : mospf_of packet ≡ msg
  unfolding ip_init_hdr
  packet-message =
      ap (λ k. drop k packet)
        (hdr_size
          ∙ (let q : 34 ≡ suc (suc (suc (suc (suc (suc (length iface.mac + 22)))))) =
                omega (arith, six) in
              q))
      ∙ drop-append iface.mac
          (be16 0x0800 ++ (ip_init_hdr id iface.ip daddr (20 + length msg) 90 ++ msg)) 22
