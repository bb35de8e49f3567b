-- ===== src/Tcp.antt =====
-- The TCP stack of code-exp2.
pub mod RingBuffer
pub mod Seq
pub mod Sock
pub mod Header
pub mod Wait
pub mod Timer
pub mod Out
pub mod Reorder
pub mod Congestion
pub mod Stack
pub mod Hashing
pub mod Process
pub mod Api
pub mod Input
pub mod Scan
mod Examples
