-- ===== src/Ports/Events.antt =====
-- internal/ports/events.go: the events that carriers report, and the values that they carry.
use dashfetchr.Base.{Option, String}
use dashfetchr.Base.Float64.{Float64}
use dashfetchr.Base.Time.{Time}

pub record GeoPoint : Type 0 where
  pub lat : Float64
  pub lng : Float64
  pub accuracy_m : Float64

pub record Rider : Type 0 where
  pub id : String
  pub name : String
  pub phone : String
  pub vehicle : String

pub record BaseEvent : Type 0 where
  pub type : String
  pub time : Time
  pub ext_id : String
  pub carrier_id : String

-- The structs behind the interface `DomainEvent`, each with its base and its own fields.
pub data DomainEvent : Type 0 where
  rider_assigned : BaseEvent → Rider → DomainEvent
  rider_arrived_at_pickup : BaseEvent → Option GeoPoint → (photo_url : String) → DomainEvent
  package_picked_up : BaseEvent → Option GeoPoint → (photo_url : String) → DomainEvent
  rider_in_transit : BaseEvent → Option GeoPoint → DomainEvent
  rider_arrived_at_destination : BaseEvent → Option GeoPoint → DomainEvent
  package_delivered : BaseEvent → Option GeoPoint → (photo_url signature : String) → DomainEvent
  delivery_failed :
      BaseEvent → (reason : String) → Option GeoPoint → (photo_url : String) → DomainEvent
  shipment_cancelled : BaseEvent → (reason : String) → DomainEvent
  package_returned_to_locker :
      BaseEvent → Option GeoPoint → (photo_url locker_id : String) → DomainEvent

-- The embedded struct.
unfoldable pub base_of : DomainEvent → BaseEvent
base_of (rider_assigned b r) = b
base_of (rider_arrived_at_pickup b l p) = b
base_of (package_picked_up b l p) = b
base_of (rider_in_transit b l) = b
base_of (rider_arrived_at_destination b l) = b
base_of (package_delivered b l p s) = b
base_of (delivery_failed b r l p) = b
base_of (shipment_cancelled b r) = b
base_of (package_returned_to_locker b l p k) = b

-- ev.EventType(), ev.OccurredAt(), ev.ExternalID()
abbrev pub event_type : DomainEvent → String
event_type e = (base_of e).type

abbrev pub occurred_at : DomainEvent → Time
occurred_at e = (base_of e).time

abbrev pub external_id : DomainEvent → String
external_id e = (base_of e).ext_id
