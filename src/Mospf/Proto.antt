-- ===== src/Mospf/Proto.antt =====
-- The messages of code-exp7: mospf_proto.c and include/mospf_proto.h. A message is its bytes, a packet
-- has an ethernet and an IP header before it.
use njucn_lab.Common.{
  ℕ, zero, suc, ◌+◌, ◌*◌, ◌/◌, ◌%◌, ◌^◌, List, [], ◌∷◌, ◌++◌, Option, none, some, length, replicate,
  get_or, take, drop, blit, ltb, if◌then◌else◌,
}
use njucn_lab.Net.Bytes.{be16, be32, le16, get16, get32}
use njucn_lab.Net.Checksum.{checksum_late}
use njucn_lab.Router.Rtable.{Iface}
use njucn_lab.Router.Icmp.{ip_init_hdr, ip_hdr_size}
use njucn_lab.Mospf.Database.{Lsa}

abbrev pub mospf_version : ℕ
mospf_version = 2

abbrev pub mospf_type_hello : ℕ
mospf_type_hello = 1

abbrev pub mospf_type_lsu : ℕ
mospf_type_lsu = 4

abbrev pub mospf_default_helloint : ℕ
mospf_default_helloint = 5

abbrev pub mospf_default_lsuint : ℕ
mospf_default_lsuint = 30

abbrev pub mospf_max_lsu_ttl : ℕ
mospf_max_lsu_ttl = 255

-- 224.0.0.5
abbrev pub mospf_all_spf_routers : ℕ
mospf_all_spf_routers = 0xe0000005

abbrev pub ipproto_mospf : ℕ
ipproto_mospf = 90

-- The header and what follows it, with a checksum of 0.
abbrev pub mospf_init_hdr : ℕ → ℕ → ℕ → ℕ → List ℕ → List ℕ
mospf_init_hdr type len rid aid body =
    mospf_version ∷ type ∷ [] ++ (be16 len ++ (be32 rid ++ (be32 aid ++ (0 ∷ 0 ∷ 0 ∷ 0 ∷ body))))

abbrev pub mospf_init_hello : ℕ → List ℕ
mospf_init_hello mask = be32 mask ++ (be16 mospf_default_helloint ++ (0 ∷ 0 ∷ []))

abbrev pub mospf_lsu_front : ℕ → ℕ → List ℕ
mospf_lsu_front seq nadv = be16 seq ++ (mospf_max_lsu_ttl ∷ 0 ∷ be32 nadv)

-- mospf_checksum: the sum over as many bytes as the header says, with its own field zeroed.
unfoldable pub mospf_checksum : List ℕ → ℕ
mospf_checksum msg = checksum_late (take (get16 msg 2) (blit msg 12 (0 ∷ 0 ∷ []))) 0

-- mospf->checksum = mospf_checksum(mospf), stored low byte first.
unfoldable pub store_checksum : List ℕ → List ℕ
store_checksum msg = blit msg 12 (le16 (mospf_checksum msg))

abbrev pub mospf_rid : List ℕ → ℕ
mospf_rid msg = get32 msg 4

-- A u16 and a u32 that are read as the machine stores them.
abbrev pub read_u16 : List ℕ → ℕ → ℕ
read_u16 p off = get_or p off 0 + 256 * get_or p (off + 1) 0

abbrev pub read_u32 : List ℕ → ℕ → ℕ
read_u32 p off = read_u16 p off + 2 ^ 16 * read_u16 p (off + 2)

abbrev pub le32 : ℕ → List ℕ
le32 n = (n % 256) ∷ (n / 256 % 256) ∷ (n / 2 ^ 16 % 256) ∷ (n / 2 ^ 24 % 256) ∷ []

-- The fields of `struct mospf_lsa` are stored with no htonl, and read with no ntohl.
abbrev pub lsa_bytes : Lsa → List ℕ
lsa_bytes l = le32 l.network ++ (le32 l.mask ++ le32 l.rid)

unfoldable pub lsas_bytes : List Lsa → List ℕ
lsas_bytes [] = []
lsas_bytes (l ∷ ls) = lsa_bytes l ++ lsas_bytes ls

abbrev put_lsa : Lsa → Option (List Lsa) → Option (List Lsa)
put_lsa l none = none
put_lsa l (some ls) = some (l ∷ ls)

-- memcpy of `nadv` advertisements; `none` is a read behind the end of the packet.
unfoldable pub read_lsas : ℕ → List ℕ → Option (List Lsa)
read_lsas zero p = some []
read_lsas (suc nadv) p =
    let rest =
      put_lsa (record { network = read_u32 p 0; mask = read_u32 p 4; rid = read_u32 p 8 })
        (read_lsas nadv (drop 12 p)) in
    if ltb (length p) 12 then none else rest

-- The message of a packet.
abbrev pub mospf_of : List ℕ → List ℕ
mospf_of packet = drop (14 + ip_hdr_size packet) packet

-- A packet to an IP address, broadcast on the link; `id` is the identification of the IP header.
abbrev pub mospf_packet : ℕ → Iface → ℕ → List ℕ → List ℕ
mospf_packet id iface daddr msg =
    replicate 6 255
    ++ (iface.mac
        ++ (be16 0x0800 ++ (ip_init_hdr id iface.ip daddr (20 + length msg) ipproto_mospf ++ msg)))
