-- ===== src/Tcp/Header.antt =====
-- tcp_init_hdr of code-exp2/tcp_out.c, tcp_checksum of include/tcp.h and tcp_cb_init of tcp.c.
pub mod RoundTrip
use Prim.Native.Nat.{bit_or}
use njucn_lab.Common.{
  ℕ, ◌+◌, ◌-◌, ◌*◌, ◌/◌, ◌%◌, ◌^◌, List, [], ◌∷◌, ◌++◌, Bool, length, take, drop, get_or, blit,
  slice, ◌==◌, if◌then◌else◌,
}
use njucn_lab.Net.Bytes.{be16, be32, get16, get32}
use njucn_lab.Net.Checksum.{checksum, u32_mod}
use njucn_lab.Tcp.Seq.{add32}
use njucn_lab.Tcp.Sock.{Segment, TcpCb, has, tcp_fin, tcp_syn}

-- The header up to its checksum. The data offset is 5 words.
abbrev pub tcp_hdr_front : ℕ → ℕ → ℕ → ℕ → ℕ → ℕ → List ℕ
tcp_hdr_front sport dport seq ack flags rwnd =
    be16 sport ++ (be16 dport ++ (be32 seq ++ (be32 ack ++ (0x50 ∷ flags ∷ be16 rwnd))))

-- With the checksum and the urgent pointer zero.
unfoldable pub tcp_init_hdr : ℕ → ℕ → ℕ → ℕ → ℕ → ℕ → List ℕ
tcp_init_hdr sport dport seq ack flags rwnd =
    tcp_hdr_front sport dport seq ack flags rwnd ++ (0 ∷ 0 ∷ 0 ∷ 0 ∷ [])

-- A u32 or u16 in network order, as a machine with the low byte first reads it.
abbrev pub htonl : ℕ → ℕ
htonl n = ((n % 256 * 256 + n / 256 % 256) * 256 + n / 2 ^ 16 % 256) * 256 + n / 2 ^ 24 % 256

abbrev pub htons : ℕ → ℕ
htons n = n % 256 * 256 + n / 256 % 256

-- The pseudo header, added up in a u32.
unfoldable pub pseudo_sum : ℕ → ℕ → ℕ → ℕ
pseudo_sum saddr daddr tcp_len = (htonl saddr + htonl daddr + htons 6 + htons tcp_len) % u32_mod

-- ip->tot_len, which ip_init_hdr puts into the IP header as a u16.
abbrev pub ip_tot_len : List ℕ → ℕ
ip_tot_len tcp = (20 + length tcp) % 2 ^ 16

-- The length is a u16 that is taken from the IP header. The field is zeroed while the sum is taken, and
-- restored. The loop of this version's checksum() computes what `checksum` does.
unfoldable pub tcp_checksum : ℕ → ℕ → List ℕ → ℕ
tcp_checksum saddr daddr tcp =
    let tcp_len = (ip_tot_len tcp + (2 ^ 16 - 20)) % 2 ^ 16 in
    checksum (take tcp_len (blit tcp 16 (0 ∷ 0 ∷ []))) (pseudo_sum saddr daddr tcp_len)

-- tcp->checksum
abbrev pub stored_checksum : List ℕ → ℕ
stored_checksum tcp = get_or tcp 16 0 + 256 * get_or tcp 17 0

-- A segment whose header was filled in and then its checksum.
unfoldable pub with_tcp_checksum : ℕ → ℕ → List ℕ → Segment
with_tcp_checksum saddr daddr tcp =
    let sum = tcp_checksum saddr daddr tcp in
    record { from_ip = saddr; to_ip = daddr; tcp = blit tcp 16 (sum % 256 ∷ sum / 256 ∷ []) }

-- TCP_HDR_SIZE
abbrev pub tcp_hdr_size : List ℕ → ℕ
tcp_hdr_size tcp = get_or tcp 12 0 / 16 * 4

-- The length of the payload is what the total length in the IP header leaves. Where it is negative, no
-- payload is read, but the end of the sequence numbers goes back.
unfoldable pub tcp_cb_init : Segment → TcpCb
tcp_cb_init s =
    let tcp = s.tcp in
    let headers = 20 + tcp_hdr_size tcp in
    let payload = take (ip_tot_len tcp - headers) (drop (tcp_hdr_size tcp) tcp) in
    let len = (2 ^ 32 + ip_tot_len tcp - headers) % 2 ^ 32 in
    let flags = get_or tcp 13 0 in
    let one = if has flags (bit_or tcp_syn tcp_fin) then 1 else 0 in
    record {
      saddr = s.from_ip;
      daddr = s.to_ip;
      sport = get16 tcp 0;
      dport = get16 tcp 2;
      seq = get32 tcp 4;
      seq_end = add32 (get32 tcp 4) (len + one);
      ack = get32 tcp 8;
      rwnd = get16 tcp 14;
      flags = flags;
      payload = payload;
    }
