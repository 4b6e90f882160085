-- ===== src/Infra/Http/Handlers/Custody.antt =====
-- internal/infra/http/handlers/custody.go: a rider's app records a custody event. The decoder of the body and
-- uuid.Parse are parameters. The time of the answer is printed as RFC3339.
use dashfetchr.Base.{Option, none, some, String, Bytes, List, map, str_eq, if◌then◌else◌}
use dashfetchr.Base.Int64.{pos}
use dashfetchr.Base.Float64.{Float64, whole}
use dashfetchr.Base.Uuid.{Uuid}
use dashfetchr.Core.Errors.{Result, ok, err, ◌>>=◌}
use dashfetchr.Core.Custody.{EventType, Actor, GeoPoint, PhotoRef, other}
use dashfetchr.Core.Custody as Custody
use dashfetchr.Core.Custody.Hashing.{Digest}
use dashfetchr.App.Store.{Store}
use dashfetchr.App.Custodyapp.{RecordInput, Fresh, Outcome, refused, recorded, record_custody}
use dashfetchr.Infra.Http.Message.{
  Request, Response, Handler, json, error, literal, of_error, custody_recorded,
}

pub record Place : Type 0 where
  pub lat : Float64
  pub lng : Float64
  pub accuracy_m : Float64

pub record Photo : Type 0 where
  pub s3_uri : String
  pub sha256 : String

pub record RecordCustodyRequest : Type 0 where
  pub type : String
  pub actor : Actor
  pub location : Option Place
  pub photos : List Photo
  pub reason : String

-- custody.EventType(s)
unfoldable pub event_type : String → EventType
event_type s =
    if str_eq s "package.dropped_at_locker"
    then Custody.package_dropped_at_locker
    else if str_eq s "pickup.requested_by_customer"
    then Custody.pickup_requested_by_customer
    else if str_eq s "rider.assigned"
    then Custody.rider_assigned
    else if str_eq s "rider.arrived_at_locker"
    then Custody.rider_arrived_at_locker
    else if str_eq s "package.picked_up"
    then Custody.package_picked_up
    else if str_eq s "rider.in_transit"
    then Custody.rider_in_transit
    else if str_eq s "rider.arrived_at_destination"
    then Custody.rider_arrived_at_destination
    else if str_eq s "package.delivered"
    then Custody.package_delivered
    else if str_eq s "delivery.failed"
    then Custody.delivery_failed
    else if str_eq s "package.returned_to_locker"
    then Custody.package_returned_to_locker
    else other s

abbrev to_point : Option Place → Option GeoPoint
to_point none = none
to_point (some p) = some (record {
  lat = p.lat;
  lng = p.lng;
  accuracy_m = p.accuracy_m;
  altitude = whole 0;
  heading = whole 0;
})

abbrev to_photo : Photo → PhotoRef
to_photo p = record {
  s3_uri = p.s3_uri;
  sha256 = p.sha256;
  content_type = "image/jpeg";
  width = pos 0;
  height = pos 0;
  exif_gps = none;
}

unfoldable pub input_of : Uuid → RecordCustodyRequest → RecordInput
unfolding event_type
input_of delivery_id body = record {
  delivery_id = delivery_id;
  type = event_type body.type;
  actor = body.actor;
  location = to_point body.location;
  photos = map to_photo body.photos;
  reason = body.reason;
}

answer : Store × Outcome → Store × Response
unfolding error json
answer (s, refused x) = (s, error 422 "custody_failed" (of_error x))
answer (s, recorded e (some x)) = (s, error 422 "custody_failed" (of_error x))
answer (s, recorded e none) =
    (s, json 201 (custody_recorded e.event_id e.sequence_num e.hash e.occurred_at))

module _ (d : Digest) where
  record_body : Fresh → Uuid → Store → Result RecordCustodyRequest → Store × Response
  unfolding answer input_of error
  record_body f id s (err x) = (s, error 400 "invalid_json" (of_error x))
  record_body f id s (ok body) = answer (record_custody d f (input_of id body) s)

  module _ (decode : Bytes → Result RecordCustodyRequest) where
    record_id : Fresh → Request → Store → Option Uuid → Store × Response
    unfolding record_body error
    record_id f r s none = (s, error 400 "invalid_id" (literal "deliveryID must be UUID"))
    record_id f r s (some id) = record_body f id s (r.body >>= decode)

    -- Custody.Record; the context is not read.
    unfoldable pub record_event : (String → Option Uuid) → Fresh → Handler
    unfolding record_id
    record_event parse_uuid f ctx r s = record_id f r s (parse_uuid r.delivery_id)
