-- ===== src/Core.antt =====
-- internal/core: the domain, and the errors that its parts return.
pub mod Errors
pub mod Delivery
pub mod Awb
pub mod Custody
pub mod Retailer
pub mod Pricing
