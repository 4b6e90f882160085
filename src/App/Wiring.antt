-- ===== src/App/Wiring.antt =====
-- internal/app/app.go with internal/carrier/wire.go: the API as New wires it over the in-memory stores. The code
-- outside of the program is an `Outside`; `order` is the order in which `range` visits a map.
pub mod Started
use dashfetchr.Base.{ℕ, Option, none, some, String, Bytes, List, [], ◌∷◌}
use dashfetchr.Base.Int64.{ℤ}
use dashfetchr.Base.Float64.{Float64}
use dashfetchr.Base.Time.{Time}
use dashfetchr.Base.Uuid.{Uuid}
use dashfetchr.Base.Maps.{Map}
use dashfetchr.Core.Errors.{Error, Result, ok, err, ◌>>=◌, wrap}
use dashfetchr.Core.Delivery.{Delivery}
use dashfetchr.Core.Custody.Hashing.{Digest}
use dashfetchr.Core.Pricing.{Maths, default_config}
use dashfetchr.Ports.Carrier.{Carrier, last_mile}
use dashfetchr.Routing.Strategy.{cheapest_strategy}
use dashfetchr.Registry.{Registry, list_by_role}
use dashfetchr.Registry.Wire.{wire}
use dashfetchr.Adapters.Bolt.Types.{BoltWebhookPayload}
use dashfetchr.Adapters.Bolt.Client as Bolt
use dashfetchr.Adapters.Bolt.Adapter.{new_adapter}
use dashfetchr.Infra.Memory.RetailerRepo as RetailerRepo
use dashfetchr.App.Booking.Prices.{quote_of}
use dashfetchr.Infra.Http.Handlers.Bookings.{CreateBookingRequest}
use dashfetchr.Infra.Http.Handlers.Custody.{RecordCustodyRequest}
use dashfetchr.Infra.Http.Server.{Wiring}

pub record Outside : Type 0 where
  pub order : Map String String → Map String String
  pub visits : Map Uuid Delivery → Map Uuid Delivery
  pub hmac_hex : String → Bytes → String
  pub unmarshal : Bytes → Result BoltWebhookPayload
  pub net : Bolt.Net
  pub wild : Float64 → ℤ
  pub maths : Maths
  pub sha256_hex : String → String
  pub digest : Digest
  pub parse_uuid : String → Option Uuid
  pub parse_time : String → Option Time
  pub uuid_string : Uuid → String
  pub decode_booking : Bytes → Result CreateBookingRequest
  pub decode_custody : Bytes → Result RecordCustodyRequest

-- What New reads of the configuration: Bolt's, and the secret of its riders.
pub record Config : Type 0 where
  pub bolt : Bolt.Config
  pub rider_secret : String

abbrev or_nil : Option (List Carrier) → List Carrier
or_nil none = []
or_nil (some cs) = cs

module _ (out : Outside) (cfg : Config) where
  abbrev pub bolt_adapter : Carrier
  bolt_adapter = new_adapter out.order out.hmac_hex out.unmarshal cfg.bolt out.net out.wild

  -- The API over a registry.
  abbrev pub wired : Registry → Wiring
  wired registry = record {
    sha256_hex = out.sha256_hex;
    digest = out.digest;
    parse_uuid = out.parse_uuid;
    parse_time = out.parse_time;
    uuid_string = out.uuid_string;
    decode_booking = out.decode_booking;
    decode_custody = out.decode_custody;
    visits = out.visits;
    get_by_api_key_hash =
        λ hash. RetailerRepo.get_by_api_key_hash hash (RetailerRepo.new out.sha256_hex);
    rider_secrets = ("bolt_food", cfg.rider_secret) ∷ [];
    quote = quote_of out.maths out.wild default_config;
    registry = registry;
    registered = or_nil (list_by_role out.order last_mile registry);
    strategy = cheapest_strategy;
    pool = none;
  }

  -- New, with UseMemory.
  unfoldable pub new_app : Result Wiring
  unfolding wire
  new_app = do registry ← wrap "wire carriers" (wire bolt_adapter); ok (wired registry)
