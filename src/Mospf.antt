-- ===== src/Mospf.antt =====
-- The link state routing of code-exp7.
pub mod Database
pub mod Instance
pub mod Spf
pub mod Routes
pub mod Proto
pub mod Lsu
pub mod Neighbors
pub mod Flood
pub mod Ip
pub mod Invariant
pub mod Exchange
mod Examples
mod Scenario
