-- ===== src/Tcp/Header/RoundTrip.antt =====
-- What one end puts into a header the other end reads.
use Prim.Native.Nat.{bit_or}
use njucn_lab.Common.{
  take_all, ℕ, ◌+◌, ◌^◌, ◌<◌, ◌≡◌, refl, List, ◌++◌, length, arith, if◌then◌else◌,
}
use njucn_lab.Tcp.Seq.{add32}
use njucn_lab.Tcp.Sock.{has, tcp_fin, tcp_syn}
use njucn_lab.Tcp.Header.{
  tcp_init_hdr, with_tcp_checksum, tcp_cb_init, tcp_checksum, stored_checksum,
}

stored :
    (saddr daddr sport dport seq ack flags rwnd : ℕ) (payload : List ℕ)
    → let s =
        with_tcp_checksum saddr daddr (tcp_init_hdr sport dport seq ack flags rwnd ++ payload) in
      tcp_checksum saddr daddr s.tcp ≡ stored_checksum s.tcp
unfolding tcp_init_hdr with_tcp_checksum tcp_checksum
stored saddr daddr sport dport seq ack flags rwnd payload = omega arith

-- A segment that a socket makes carries the checksum that its receiver computes, and is read as it
-- was made: ports, numbers, flags, window and payload, with the end of its sequence numbers one
-- further for a SYN or a FIN. Every field fits its width, and so does the total length of the packet.
pub tcp_cb_init-with_tcp_checksum :
    (saddr daddr sport dport seq ack flags rwnd : ℕ) (payload : List ℕ)
    → sport < 2 ^ 16
    → dport < 2 ^ 16
    → seq < 2 ^ 32
    → ack < 2 ^ 32
    → rwnd < 2 ^ 16
    → length payload + 40 < 2 ^ 16
    → let s =
        with_tcp_checksum saddr daddr (tcp_init_hdr sport dport seq ack flags rwnd ++ payload) in
      (tcp_checksum s.from_ip s.to_ip s.tcp ≡ stored_checksum s.tcp)
      × ((tcp_cb_init s).sport ≡ sport)
      × ((tcp_cb_init s).dport ≡ dport)
      × ((tcp_cb_init s).seq ≡ seq)
      × ((tcp_cb_init s).ack ≡ ack)
      × ((tcp_cb_init s).rwnd ≡ rwnd)
      × ((tcp_cb_init s).flags ≡ flags)
      × ((tcp_cb_init s).payload ≡ payload)
      × ((tcp_cb_init s).seq_end
          ≡ add32 seq (length payload + (if has flags (bit_or tcp_syn tcp_fin) then 1 else 0)))
unfolding tcp_init_hdr with_tcp_checksum tcp_cb_init
tcp_cb_init-with_tcp_checksum saddr daddr sport dport seq ack flags rwnd payload h1 h2 h3 h4 h5 h6 =
    (
      stored saddr daddr sport dport seq ack flags rwnd payload,
      omega arith,
      omega arith,
      omega arith,
      omega arith,
      omega arith,
      refl,
      take_all payload _ (omega (arith, h6)),
      omega (arith, h6),
    )
