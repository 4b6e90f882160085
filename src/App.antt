-- ===== src/App.antt =====
-- internal/app: the services that join the core, the carriers and the stores.
pub mod Store
pub mod Custodyapp
pub mod Webhook
pub mod Dispatch
pub mod Booking
pub mod Evidence
pub mod Chains
pub mod Journeys
pub mod Fulfilment
pub mod Boundary
pub mod Wiring
pub mod Shortfalls
pub mod Redact
