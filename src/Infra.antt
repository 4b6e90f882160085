-- ===== src/Infra.antt =====
-- internal/infra: the stores.
pub mod Memory
pub mod Http
pub mod Postgres
pub mod Events
