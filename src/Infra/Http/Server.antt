-- ===== src/Infra/Http/Server.antt =====
-- internal/infra/http/server.go: the routes, and the middleware in front of each. chi's choice of a route by
-- method and path is the argument; its time limit and its reading of the caller's address are left out.
use dashfetchr.Base.{ℕ, Option, String, Bytes, List}
use dashfetchr.Base.Time.{Time}
use dashfetchr.Base.Uuid.{Uuid}
use dashfetchr.Base.Maps.{Map}
use dashfetchr.Core.Errors.{Error, Result}
use dashfetchr.Core.Delivery.{Delivery}
use dashfetchr.Core.Custody.Hashing.{Digest}
use dashfetchr.Core.Retailer.{Retailer}
use dashfetchr.Ports.Carrier.{Carrier}
use dashfetchr.Registry.{Registry}
use dashfetchr.Routing.Strategy.{Strategy}
use dashfetchr.Auth.{background}
use dashfetchr.App.Store.{Store}
use dashfetchr.App.Custodyapp.{Fresh}
use dashfetchr.App.Booking.{CreateBookingInput, Draw, Quote}
use dashfetchr.Infra.Http.Message.{Request, Response}
use dashfetchr.Infra.Http.Middleware.{require_retailer, require_rider}
use dashfetchr.Infra.Http.Handlers.Bookings as Bookings
use dashfetchr.Infra.Http.Handlers.Bookings.{CreateBookingRequest}
use dashfetchr.Infra.Http.Handlers.Custody as Custody
use dashfetchr.Infra.Http.Handlers.Custody.{RecordCustodyRequest}
use dashfetchr.Infra.Http.Handlers.Webhooks as Webhooks
use dashfetchr.Infra.Http.Handlers.Health as Health

-- The code outside of the program, and what app.New wires: the retailers, the riders' secrets, the registry
-- and what the engine gets from it, the strategy, a ping of the database.
pub record Wiring : Type 0 where
  pub sha256_hex : String → String
  pub digest : Digest
  pub parse_uuid : String → Option Uuid
  pub parse_time : String → Option Time
  pub uuid_string : Uuid → String
  pub decode_booking : Bytes → Result CreateBookingRequest
  pub decode_custody : Bytes → Result RecordCustodyRequest
  pub visits : Map Uuid Delivery → Map Uuid Delivery
  pub get_by_api_key_hash : String → Result Retailer
  pub rider_secrets : Map String String
  pub quote : CreateBookingInput → Quote
  pub registry : Registry
  pub registered : List Carrier
  pub strategy : Strategy
  pub pool : Option (Option Error)

-- What one request takes from the clock and the random source.
pub record Readings : Type 0 where
  pub draw : Draw
  pub now : Time
  pub later : Time
  pub event : Fresh
  pub events : ℕ → Fresh

pub data Route : Type 0 where
  healthz readyz post_booking get_booking post_dispatch post_custody post_bolt : Route

unfoldable pub serve : Wiring → Readings → Route → Request → Store → Store × Response
serve w c healthz r s = (s, Health.liveness)
serve w c readyz r s = (s, Health.readiness w.pool)
serve w c post_booking r s =
    require_retailer w.get_by_api_key_hash w.sha256_hex
      (Bookings.create w.quote w.uuid_string w.parse_time w.decode_booking c.draw) background r s
serve w c get_booking r s =
    require_retailer w.get_by_api_key_hash w.sha256_hex (Bookings.get w.parse_uuid w.digest)
      background r s
serve w c post_dispatch r s =
    require_retailer w.get_by_api_key_hash w.sha256_hex
      (Bookings.dispatch w.parse_uuid w.strategy w.registered c.now c.later) background r s
serve w c post_custody r s =
    require_rider w.rider_secrets
      (Custody.record_event w.digest w.decode_custody w.parse_uuid c.event) background r s
serve w c post_bolt r s = Webhooks.bolt w.digest w.visits w.registry c.events background r s
