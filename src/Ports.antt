-- ===== src/Ports.antt =====
-- internal/ports: what the core exchanges with carriers.
pub mod Events
pub mod Carrier
