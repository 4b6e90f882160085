-- ===== src/Core/Custody.antt =====
-- internal/core/custody/event.go: custody events, the policy on photos and locations, and `Validate`.
pub mod Policy
pub mod Hashing
pub mod Ledger
pub mod Chain
pub mod Recording
pub mod Tampering
use dashfetchr.Base.{
  ℕ, ◌==◌, Bytes, Bool, true, false, ◌&&◌, Option, none, some, String, List, [], ◌∷◌, str_eq,
  if◌then◌else◌,
}
use dashfetchr.Base.Int64.{ℤ}
use dashfetchr.Base.Float64.{Float64}
use dashfetchr.Base.Time.{Time, is_zero}
use dashfetchr.Base.Uuid.{Uuid, uuid_nil}
use dashfetchr.Core.Errors.{Error, invalid_event, photo_required, gps_required}

-- `other` is any string that is none of the constants: the HTTP handler takes the type from a client.
pub data EventType : Type 0 where
  package_dropped_at_locker pickup_requested_by_customer rider_assigned : EventType
  rider_arrived_at_locker package_picked_up rider_in_transit : EventType
  rider_arrived_at_destination package_delivered delivery_failed : EventType
  package_returned_to_locker : EventType
  other : String → EventType

pub record Actor : Type 0 where
  pub type : String
  pub carrier_id : String
  pub id : String
  pub name : String

pub record GeoPoint : Type 0 where
  pub lat : Float64
  pub lng : Float64
  pub accuracy_m : Float64
  pub altitude : Float64
  pub heading : Float64

pub record PhotoRef : Type 0 where
  pub s3_uri : String
  pub sha256 : String
  pub content_type : String
  pub width : ℤ
  pub height : ℤ
  pub exif_gps : Option GeoPoint

pub record SignatureRef : Type 0 where
  pub s3_uri : String
  pub sha256 : String

pub record Event : Type 0 where
  pub event_id : Uuid
  pub delivery_id : Uuid
  pub sequence_num : ℤ
  pub type : EventType
  pub occurred_at : Time
  pub carrier_time : Option Time
  pub actor : Actor
  pub location : Option GeoPoint
  pub photos : List PhotoRef
  pub signature : Option SignatureRef
  pub reason : String
  pub metadata : Bytes
  pub prev_hash : Bytes
  pub hash : Bytes

unfoldable pub requires_photo : EventType → Bool
requires_photo rider_arrived_at_locker = true
requires_photo package_picked_up = true
requires_photo package_delivered = true
requires_photo delivery_failed = true
requires_photo package_returned_to_locker = true
requires_photo _ = false

unfoldable pub requires_gps : EventType → Bool
requires_gps rider_arrived_at_locker = true
requires_gps package_picked_up = true
requires_gps rider_in_transit = true
requires_gps rider_arrived_at_destination = true
requires_gps package_delivered = true
requires_gps delivery_failed = true
requires_gps package_returned_to_locker = true
requires_gps _ = false

-- `e.Type == ""`
abbrev pub is_blank : EventType → Bool
is_blank (other s) = str_eq s ""
is_blank _ = false

abbrev pub is_empty {ℓ} : {A : Type ℓ} → List A → Bool
is_empty [] = true
is_empty (x ∷ xs) = false

abbrev pub is_none {ℓ} : {A : Type ℓ} → Option A → Bool
is_none none = true
is_none (some a) = false

-- `none` is the nil error.
unfoldable pub validate : Event → Option Error
unfolding requires_photo requires_gps
validate e =
    if is_blank e.type
    then some invalid_event
    else if e.delivery_id == uuid_nil
    then some invalid_event
    else if is_zero e.occurred_at
    then some invalid_event
    else if requires_photo e.type && is_empty e.photos
    then some photo_required
    else if requires_gps e.type && is_none e.location
    then some gps_required
    else none
