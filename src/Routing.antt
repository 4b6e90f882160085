-- ===== src/Routing.antt =====
-- internal/core/routing: the choice of a carrier for a shipment.
pub mod Dimensions
pub mod Strategy
pub mod Engine
pub mod Cheapest
pub mod Eligibility
pub mod Decisions
pub mod Weighted
