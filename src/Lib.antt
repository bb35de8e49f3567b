-- ===== src/Lib.antt =====
-- Verification of the network labs: the learning switch and the hub, the IP router, its link state
-- routing, and the TCP stack. Each lab is a user-space program over raw sockets; the labs share the
-- shape "read a frame, look at its headers, update tables, send frames".
--
-- - Common: lists measured by native numbers, Boolean tests, and laws of arrays. No code of its own.
-- - Net/Checksum: checksum() of code-exp5/include/checksum.h, of code-exp2/include/checksum.h
--   (checksum_loop) and of code-exp7/include/checksum.h (checksum_late). The loop that folds the
--   carries has three rounds of fuel, which are enough for any 32-bit sum. Net/Bytes: htons, htonl and
--   their inverses as bytes.
-- - Tcp: code-exp2. RingBuffer is include/ring_buffer.h; Seq the comparisons of include/tcp.h; Wait
--   include/synch_wait.h; Sock the structures, with the socket and what it shares as one state; Header
--   and Input are tcp.c with tcp_init_hdr; Timer and Scan are tcp_timer.c; Out is tcp_out.c; Reorder,
--   Congestion and Process are tcp_in.c, a function for each case of tcp_process; Stack, Hashing and
--   Api are tcp_sock.c. A function on one socket takes and gives that socket, the list of timers and
--   the segments sent; the stack runs it on the socket of a number. Floats are an interface of
--   operations on the patterns of their bits.
-- - Switch: code-exp9 (mac.c, main.c, broadcast.c, include/hash.h) and the hub of code-exp8. A table is
--   256 lists of entries; the operations run under the table's lock, so that a history of the two
--   threads is a list of events.
-- - Router: code-exp5. Rtable is rtable.c and longest_prefix_match of ip_base.c; ArpCache and Sweep
--   are arpcache.c; Arp is arp.c; Icmp is icmp.c with ip_init_hdr and ip_send_packet of ip_base.c; Ip
--   is ip.c. The state of Router/State holds the tables, the time, the results of rand() and the
--   frames that were sent.
-- - Mospf: the link state routing of code-exp7, mospf_daemon.c with mospf_proto.c. Instance is what it
--   keeps (include/base.h, mospf_nbr.h); Database the link state database (mospf_database.c); Spf the
--   search for shortest paths in mospf_dijkstra, and Routes the routing table that it computes, with
--   spf_run; Proto the messages; Lsu what is sent, and the two threads that send; Neighbors hellos and
--   checking_nbr_thread; Flood handle_mospf_lsu, handle_mospf_packet and checking_database_thread; Ip
--   ip.c, and handle_packet of main.c. Invariant is about runs of all of these, Exchange about two
--   routers. The daemon's state holds the state of Router/State, since the files of code-exp7 for ARP,
--   ICMP and the routing table are those of code-exp5 but for logging.
--
-- Modelling. A packet is the list of its bytes, and an index outside it reads 0 and writes nothing;
-- the sources check no lengths either. Interfaces stand for their addresses in memory by a number.
-- Machine integers are natural numbers whose wrap-around is written out. Locks, logging, malloc and
-- free are left out, except where freed memory is used: then the result is none, or for a packet
-- that is forwarded, `freed`. In the TCP stack none is also an endless walk along a list that a
-- node was added to twice, and a stale pointer. Time and random numbers are inputs. Calls that
-- sleep are cut in two there, so that other threads may run. The rounds of the daemon's threads are
-- single steps, and also cut where they give up mospf_lock; the sweep of the ARP cache is a single
-- step, although it gives up its lock to answer packets.
--
-- Recursion is on lists; the mask of a route is counted by recursion on the well-founded order of
-- its value, so that no fuel is needed. The sweep of the ARP cache takes fuel, since its walk may
-- go round; it is proved when one for each request and packet is enough. tcp_sock_write has the
-- length of its buffer as fuel, since each round with an open window sends at least a byte; the
-- search for a port has the number of ports. The search for shortest paths has one round more than
-- there are nodes, since each round visits one; the way back to the first hop has INT_MAX + 2
-- steps, since the cost falls at each step. Where either ran out of fuel the result would be none.
-- This never happens to the search, and not to the way back if no router is named 0.0.0.0 or
-- 255.255.255.255. What the daemon finds in the kernel's routing table is a parameter of spf_run
-- and of what calls it; there none is also a read behind the end of a packet, and a failed
-- assertion.
--
-- Not modelled: sockets, polling and the start of threads (device_internal.c, main.c but for
-- handle_packet); reading the kernel's routing table over netlink (rtable_internal.c); printing;
-- the web server of code-exp1, which is calls of OpenSSL and file input; tcp_apps.c, which is file
-- copying and echoing on top of the calls; and the prebuilt programs.
pub mod Common
pub mod Net
pub mod Tcp
pub mod Router
pub mod Switch
pub mod Mospf
