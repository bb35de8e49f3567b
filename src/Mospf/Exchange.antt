-- ===== src/Mospf/Exchange.antt =====
-- What one router of code-exp7 sends is what the other reads: hellos and link state updates.
pub mod Frames
pub mod Hello
pub mod Update
pub mod Relay
