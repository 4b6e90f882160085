-- ===== src/Adapters.antt =====
-- internal/adapters: the carriers' adapters.
pub mod Bolt
