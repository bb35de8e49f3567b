-- ===== src/Tcp/Input.antt =====
-- handle_tcp_packet of code-exp2/tcp.c.
use njucn_lab.Common.{ℕ, Option, some, ◌>>=◌, Bool, ◌==◌, if◌then◌else◌}
use njucn_lab.Tcp.Sock.{Segment}
use njucn_lab.Tcp.Header.{tcp_checksum, stored_checksum, tcp_cb_init}
use njucn_lab.Tcp.Congestion.{Float}
use njucn_lab.Tcp.Stack.{Stack, tcp_sock_lookup}
use njucn_lab.Tcp.Process.{tcp_process}

unfoldable pub checksum_ok : Segment → Bool
checksum_ok s = tcp_checksum s.from_ip s.to_ip s.tcp == stored_checksum s.tcp

-- The lock of the socket is taken through its pointer: without a socket the process ends there.
unfoldable pub handle_tcp_packet : Float → ℕ → Segment → Stack → Option Stack
handle_tcp_packet fl iss s st =
    let cb = tcp_cb_init s in
    if checksum_ok s
    then (do found ← tcp_sock_lookup cb st; id ← found; tcp_process fl iss (some id) cb st)
    else some st
