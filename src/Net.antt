-- ===== src/Net.antt =====
-- What the stacks share: the internet checksum, and multi-byte fields in network order.
pub mod Bytes
pub mod Checksum
