-- ===== src/Infra/Http.antt =====
-- internal/infra/http: the API over the services.
pub mod Message
pub mod Middleware
pub mod Handlers
pub mod Server
pub mod Access
pub mod Ownership
pub mod Journeys
