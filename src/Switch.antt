-- ===== src/Switch.antt =====
-- The learning switch of code-exp9 and the hub of code-exp8.
pub mod Hash
pub mod MacTable
pub mod Forward
pub mod Hub
