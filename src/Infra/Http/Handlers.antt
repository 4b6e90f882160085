-- ===== src/Infra/Http/Handlers.antt =====
-- internal/infra/http/handlers: a handler per resource.
pub mod Bookings
pub mod Custody
pub mod Webhooks
pub mod Health
