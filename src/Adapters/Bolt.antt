-- ===== src/Adapters/Bolt.antt =====
-- internal/adapters/carriers/bolt/capabilities.go: what Bolt Food declares that it can do. Durations are
-- nanoseconds. The coordinates of the zone, which no code reads, are left out.
pub mod Types
pub mod Mapper
pub mod Client
pub mod Webhook
pub mod Adapter
pub mod Signed
pub mod Failures
use dashfetchr.Base.{ℕ, [], ◌∷◌, false, ◌*◌}
use dashfetchr.Base.Int64.{ℤ, pos}
use dashfetchr.Base.Float64.{whole}
use dashfetchr.Ports.Carrier.{
  Capabilities, last_mile, instant, scheduled, address, hub, photo, gps, bearer_token,
}

abbrev minutes : ℕ → ℤ
minutes n = pos (n * 60000000000)

unfoldable pub build_capabilities : Capabilities
build_capabilities = record {
  id = "bolt_food";
  name = "Bolt Food (Bolt Delivery)";
  roles = last_mile ∷ [];
  max_weight_kg = whole 15;
  max_dimensions_cm = record { d0 = whole 60; d1 = whole 40; d2 = whole 40 };
  zones = record { name = "bucharest_sector_1"; coordinates = [] } ∷ [];
  delivery_modes = instant ∷ scheduled ∷ [];
  pickup_modes = address ∷ hub ∷ [];
  pod = photo ∷ gps ∷ [];
  sla = record {
    avg_pickup_time = minutes 12;
    avg_delivery_time = minutes 25;
    max_delay = minutes 15;
  };
  supports_locker = false;
  auth_scheme = bearer_token;
  api_rate_limit = record { requests = pos 60; per_second = whole 1 };
  quirks =
      "Bolt riders cannot natively open Sameday lockers; pickup requires pre-opened drop or partner human at pickup"
      ∷ "Webhook retries up to 5 times with exponential backoff; idempotency required on consumer side"
      ∷ "Service area metadata in capabilities is approximate; engine should still call GetEstimate to confirm"
      ∷ [];
}
