-- ===== src/Tcp/Out.antt =====
-- code-exp2/tcp_out.c: segments that a socket sends, and the buffer of those not acknowledged yet.
pub mod Buffer
use Prim.Native.Nat.{bit_or}
use njucn_lab.Common.{
  ℕ, ◌+◌, ◌-◌, ◌^◌, List, [], ◌∷◌, ◌++◌, Bool, true, false, length, if◌then◌else◌,
}
use njucn_lab.Tcp.Seq.{add32, sub32, less_than_32b}
use njucn_lab.Tcp.Sock.{
  Tcp, TcpSock, TcpCb, Segment, SendBufferEntry, has, tcp_fin, tcp_syn, tcp_rst, tcp_psh, tcp_ack,
}
use njucn_lab.Tcp.Header.{tcp_init_hdr, with_tcp_checksum}
use njucn_lab.Tcp.Timer.{
  tcp_set_retrans_timer, tcp_unset_retrans_timer, tcp_update_retrans_timer, wake_send,
}

-- A segment of the socket: header, checksum, payload.
unfoldable pub segment : TcpSock → ℕ → ℕ → List ℕ → Segment
segment tsk seq flags payload =
    with_tcp_checksum tsk.sk_sip tsk.sk_dip
      (tcp_init_hdr tsk.sk_sport tsk.sk_dport seq tsk.rcv_nxt flags tsk.rcv_wnd ++ payload)

abbrev pub psh_ack : ℕ
psh_ack = bit_or tcp_psh tcp_ack

abbrev pub emit : Segment → Tcp → Tcp
emit p s = record s { sent = s.sent ++ (p ∷ []) }

-- The payload is what the packet holds behind the headers.
unfoldable pub tcp_send_packet : List ℕ → Tcp → Tcp
tcp_send_packet payload s =
    emit (segment s.tsk s.tsk.snd_nxt psh_ack payload)
      (record s { tsk = record s.tsk { snd_nxt = add32 s.tsk.snd_nxt (length payload) } })

unfoldable pub tcp_send_probe_packet : Tcp → Tcp
tcp_send_probe_packet s = emit (segment s.tsk (sub32 s.tsk.snd_una 1) psh_ack (b'X' ∷ [])) s

unfoldable pub tcp_send_control_packet : ℕ → Tcp → Tcp
tcp_send_control_packet flags s = emit (segment s.tsk s.tsk.snd_nxt flags []) (record s {
  tsk = record s.tsk {
    snd_nxt = if has flags (bit_or tcp_syn tcp_fin) then add32 s.tsk.snd_nxt 1 else s.tsk.snd_nxt;
  };
})

unfoldable pub tcp_send_reset : TcpCb → Segment
tcp_send_reset cb =
    with_tcp_checksum cb.daddr cb.saddr
      (tcp_init_hdr cb.dport cb.sport 0 cb.seq_end (bit_or tcp_rst tcp_ack) 0)

unfoldable pub tcp_send_buffer_add_packet : List ℕ → Tcp → Tcp
tcp_send_buffer_add_packet packet s = tcp_set_retrans_timer (record s {
  tsk = record s.tsk {
    send_buf = s.tsk.send_buf ++ (record { seq = s.tsk.snd_nxt; packet = packet } ∷ []);
  };
})

-- The loop of tcp_update_send_buffer: `updated`, and what stays.
unfoldable pub acknowledged : ℕ → List SendBufferEntry → Bool × List SendBufferEntry
acknowledged ack [] = (false, [])
acknowledged ack (e ∷ es) =
    let rest = acknowledged ack es in
    if less_than_32b e.seq ack then (true, rest.1) else (false, e ∷ es)

-- The timer is unset if the buffer is empty.
abbrev pub unset_if_empty : List SendBufferEntry → Tcp → Tcp
unset_if_empty [] s = tcp_unset_retrans_timer s
unset_if_empty (e ∷ es) s = s

unfoldable pub tcp_update_send_buffer : ℕ → Tcp → Bool × Tcp
tcp_update_send_buffer ack s =
    let (updated, left) = acknowledged ack s.tsk.send_buf in
    let s' = record s { tsk = record s.tsk { send_buf = left } } in
    (updated, tcp_update_retrans_timer (unset_if_empty left s'))

-- The Bool is whether there was a segment to send again.
unfoldable pub tcp_retrans_send_buffer : Tcp → Bool × Tcp
tcp_retrans_send_buffer s = elim s.tsk.send_buf [
  | [] ↦ (false, wake_send s)
  | e ∷ es ↦ (true, emit (segment s.tsk e.seq psh_ack e.packet) s)
]
