-- ===== src/Router.antt =====
-- The IP router of code-exp5: routing table, ARP cache, forwarding and ICMP.
pub mod Rtable
pub mod State
pub mod ArpCache
pub mod Arp
pub mod Icmp
pub mod Ip
pub mod Sweep
mod Examples
