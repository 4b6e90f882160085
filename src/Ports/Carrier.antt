-- ===== src/Ports/Carrier.antt =====
-- internal/ports/carrier.go: the interface of a carrier's adapter, and the types of a shipment. What a
-- carrier answers to a request is a function of the request: a call's answer is a parameter.
use dashfetchr.Base.{Option, String, List, Bytes, Bool, true, false}
use dashfetchr.Base.Int64.{ℤ}
use dashfetchr.Base.Float64.{Float64}
use dashfetchr.Base.Time.{Time}
use dashfetchr.Base.Maps.{Map}
use dashfetchr.Core.Errors.{Error, Result}
use dashfetchr.Ports.Events.{GeoPoint, Rider, DomainEvent}

pub data CarrierRole : Type 0 where
  first_mile mid_mile last_mile : CarrierRole

pub data DeliveryMode : Type 0 where
  instant scheduled : DeliveryMode

pub data PickupMode : Type 0 where
  address locker hub : PickupMode

pub data ProofType : Type 0 where
  photo gps signature : ProofType

pub data AuthScheme : Type 0 where
  bearer_token api_key oauth2 hmac : AuthScheme

-- `==` on the two enumerations that the routing compares.
abbrev pub same_role : CarrierRole → CarrierRole → Bool
same_role first_mile first_mile = true
same_role mid_mile mid_mile = true
same_role last_mile last_mile = true
same_role _ _ = false

abbrev pub same_mode : PickupMode → PickupMode → Bool
same_mode address address = true
same_mode locker locker = true
same_mode hub hub = true
same_mode _ _ = false

-- Durations are int64 nanoseconds.
pub record Sla : Type 0 where
  pub avg_pickup_time : ℤ
  pub avg_delivery_time : ℤ
  pub max_delay : ℤ

pub record RateLimit : Type 0 where
  pub requests : ℤ
  pub per_second : Float64

pub record GeoZone : Type 0 where
  pub name : String
  pub coordinates : List (List Float64)

pub record Dimensions : Type 0 where
  pub d0 : Float64
  pub d1 : Float64
  pub d2 : Float64

pub record Capabilities : Type 0 where
  pub id : String
  pub name : String
  pub roles : List CarrierRole
  pub max_weight_kg : Float64
  pub max_dimensions_cm : Dimensions
  pub zones : List GeoZone
  pub delivery_modes : List DeliveryMode
  pub pickup_modes : List PickupMode
  pub pod : List ProofType
  pub sla : Sla
  pub supports_locker : Bool
  pub auth_scheme : AuthScheme
  pub api_rate_limit : RateLimit
  pub quirks : List String

pub record Money : Type 0 where
  pub currency : String
  pub minor : ℤ

pub record Address : Type 0 where
  pub street : String
  pub city : String
  pub postal_code : String
  pub country : String
  pub floor : String
  pub apartment : String
  pub instructions : String

pub record Location : Type 0 where
  pub type : PickupMode
  pub point : GeoPoint
  pub address : Address
  pub locker_id : String
  pub hub_id : String

pub record Package : Type 0 where
  pub weight_kg : Float64
  pub length_cm : Float64
  pub width_cm : Float64
  pub height_cm : Float64
  pub declared_value_minor : ℤ
  pub declared_value_ccy : String
  pub description : String
  pub fragile : Bool

pub record Recipient : Type 0 where
  pub name : String
  pub phone : String
  pub email : String

pub record ShipmentRequest : Type 0 where
  pub internal_awb : Bytes
  pub idempotency_key : String
  pub pickup : Location
  pub drop : Location
  pub pkg : Package
  pub recipient : Recipient
  pub scheduled_start : Option Time
  pub scheduled_end : Option Time
  pub notes : String
  pub require_photo_pod : Bool

pub data ShipmentState : Type 0 where
  unknown pending assigned en_route_pickup picked_up in_transit en_route_drop : ShipmentState
  delivered failed cancelled returned_to_origin : ShipmentState

pub record ShipmentResponse : Type 0 where
  pub external_id : String
  pub state : ShipmentState
  pub estimated_cost : Money
  pub estimated_pickup_at : Option Time
  pub estimated_drop_at : Option Time
  pub tracking_url : String

pub record ShipmentStatus : Type 0 where
  pub external_id : String
  pub state : ShipmentState
  pub rider : Option Rider
  pub last_location : Option GeoPoint
  pub last_updated_at : Time

pub record EstimateRequest : Type 0 where
  pub pickup : Location
  pub drop : Location
  pub pkg : Package
  pub when : Option Time

pub record Estimate : Type 0 where
  pub cost : Money
  pub estimated_eta : ℤ
  pub window_start_at : Option Time
  pub window_end_at : Option Time
  pub confidence_score : Float64

-- CarrierPort
pub record Carrier : Type 0 where
  pub capabilities : Capabilities
  pub create_shipment : ShipmentRequest → Result ShipmentResponse
  pub get_shipment_status : String → Result ShipmentStatus
  pub cancel_shipment : String → String → Option Error
  pub get_estimate : EstimateRequest → Result Estimate
  pub parse_webhook : Bytes → Map String String → Result (List DomainEvent)
