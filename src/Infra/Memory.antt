-- ===== src/Infra/Memory.antt =====
-- internal/infra/memory: the in-memory stores.
pub mod CustodyRepo
pub mod DeliveryRepo
pub mod AwbRepo
pub mod RetailerRepo
pub mod RoutingRepo
