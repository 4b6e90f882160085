-- ===== src/App/Webhook.antt =====
-- internal/app/webhook/service.go: a carrier's webhook becomes custody events. Each event of the webhook
-- takes one set of readings and identifiers; logging is left out.
use dashfetchr.Base.{
  ℕ, suc, not, ◌&&◌, Option, none, some, String, List, Bytes, [], ◌∷◌, str_eq, if◌then◌else◌,
}
use dashfetchr.Base.Int64.{pos}
use dashfetchr.Base.Float64.{whole}
use dashfetchr.Base.Uuid.{Uuid}
use dashfetchr.Base.Maps.{Map}
use dashfetchr.Core.Errors.{Error, Result, ok, err, wrapped, is_not_found}
use dashfetchr.Core.Delivery.States.{is_pending, assigned}
use dashfetchr.Core.Delivery.{Delivery, Rider, transition, cancel}
use dashfetchr.Core.Custody.{
  EventType, Actor, GeoPoint, PhotoRef, requires_photo, requires_gps, is_none,
}
use dashfetchr.Core.Custody as Custody
use dashfetchr.Core.Custody.Hashing.{Digest}
use dashfetchr.Infra.Memory.DeliveryRepo.{save, get_by_carrier_external_id}
use dashfetchr.Ports.Events as Events
use dashfetchr.Ports.Carrier.{Carrier}
use dashfetchr.Registry.{Registry, get}
use dashfetchr.App.Store.{Store}
use dashfetchr.App.Custodyapp.{RecordInput, Fresh, Outcome, refused, recorded, record_custody}

-- The error that `Record` returns.
abbrev pub error_of : Outcome → Option Error
error_of (refused x) = some x
error_of (recorded e o) = o

abbrev pub to_point : Option Events.GeoPoint → Option GeoPoint
to_point none = none
to_point (some p) = some (record {
  lat = p.lat;
  lng = p.lng;
  accuracy_m = p.accuracy_m;
  altitude = whole 0;
  heading = whole 0;
})

abbrev pub photo_ref : String → PhotoRef
photo_ref uri = record {
  s3_uri = uri;
  sha256 = "webhook-pending";
  content_type = "";
  width = pos 0;
  height = pos 0;
  exif_gps = none;
}

abbrev pub unknown_place : GeoPoint
unknown_place = record {
  lat = whole 0;
  lng = whole 0;
  accuracy_m = whole 999;
  altitude = whole 0;
  heading = whole 0;
}

-- The photos and the location that are recorded: placeholders where the policy demands what the
-- webhook lacks.
unfoldable pub photos_of : EventType → String → List PhotoRef
photos_of t photo_url =
    if not (str_eq photo_url "")
    then photo_ref photo_url ∷ []
    else if requires_photo t
    then photo_ref "s3://dashfetchr-pod/pending/webhook.jpg" ∷ []
    else []

unfoldable pub location_of : EventType → Option Events.GeoPoint → Option GeoPoint
location_of t loc =
    if requires_gps t && is_none (to_point loc) then some unknown_place else to_point loc

unfoldable pub webhook_input :
    Uuid → EventType → String → Option Events.GeoPoint → (photo_url reason : String) → RecordInput
unfolding photos_of location_of
webhook_input delivery_id t carrier_id loc photo_url reason = record {
  delivery_id = delivery_id;
  type = t;
  actor = record { type = "carrier"; carrier_id = carrier_id; id = ""; name = "" };
  location = location_of t loc;
  photos = photos_of t photo_url;
  reason = reason;
}

abbrev pub assigned_input : Uuid → String → Events.Rider → RecordInput
assigned_input delivery_id carrier_id r = record {
  delivery_id = delivery_id;
  type = Custody.rider_assigned;
  actor = record { type = "rider"; carrier_id = carrier_id; id = r.id; name = r.name };
  location = none;
  photos = [];
  reason = "";
}

abbrev pub rider_of : Events.Rider → Rider
rider_of r = record { id = r.id; name = r.name; phone = r.phone; vehicle = r.vehicle }

-- What `onRiderAssigned` saves: the error of `Transition` is dropped.
unfoldable pub with_rider : Fresh → Events.Rider → Delivery → Delivery
with_rider f r del =
    let moved = if is_pending del.state then (transition assigned "" f.now del).0 else del in
    record moved { rider = some (rider_of r) }

module _ (d : Digest) where
  record_webhook : Fresh → RecordInput → Store → Store × Option Error
  record_webhook f i s = let (t, o) = record_custody d f i s in (t, error_of o)

  unfoldable pub on_rider_assigned :
      Fresh → Delivery → String → Events.Rider → Store → Store × Option Error
  unfolding record_webhook with_rider
  on_rider_assigned f del carrier_id r s =
      let saved = record s { deliveries = save (with_rider f r del) s.deliveries } in
      record_webhook f (assigned_input del.id carrier_id r)
        (if not (str_eq r.id "") then saved else s)

  -- The type switch of `handleDomainEvent`.
  unfoldable pub dispatch_event :
      Fresh → Delivery → String → Events.DomainEvent → Store → Store × Option Error
  unfolding on_rider_assigned record_webhook webhook_input
  dispatch_event f del carrier_id (Events.rider_assigned b r) s =
      on_rider_assigned f del carrier_id r s
  dispatch_event f del carrier_id (Events.rider_arrived_at_pickup b loc photo) s =
      record_webhook f
        (webhook_input del.id Custody.rider_arrived_at_locker carrier_id loc photo "") s
  dispatch_event f del carrier_id (Events.package_picked_up b loc photo) s =
      record_webhook f (webhook_input del.id Custody.package_picked_up carrier_id loc photo "") s
  dispatch_event f del carrier_id (Events.package_delivered b loc photo signature) s =
      record_webhook f (webhook_input del.id Custody.package_delivered carrier_id loc photo "") s
  dispatch_event f del carrier_id (Events.delivery_failed b reason loc photo) s =
      record_webhook f (webhook_input del.id Custody.delivery_failed carrier_id loc photo reason) s
  dispatch_event f del carrier_id (Events.shipment_cancelled b reason) s =
      (record s { deliveries = save (cancel reason f.now del).0 s.deliveries }, none)
  dispatch_event f del carrier_id _ s = (s, none)

  handle_found :
      Fresh → String → Events.DomainEvent → Store → Result Delivery → Store × Option Error
  unfolding dispatch_event
  handle_found f carrier_id ev s (ok del) = dispatch_event f del carrier_id ev s
  handle_found f carrier_id ev s (err x) = if is_not_found x then (s, none) else (s, some x)

  module _ (order : Map Uuid Delivery → Map Uuid Delivery) where
    unfoldable pub handle_domain_event :
        Fresh → String → Events.DomainEvent → Store → Store × Option Error
    unfolding handle_found
    handle_domain_event f carrier_id ev s =
        if str_eq (Events.external_id ev) ""
        then (s, none)
        else handle_found f carrier_id ev s
            (get_by_carrier_external_id order carrier_id (Events.external_id ev) s.deliveries)

    -- The loop of `Process`: an event's error is logged, and the loop goes on. `fresh n` is what the
    -- event at index n takes from outside.
    unfoldable pub handle_all : (ℕ → Fresh) → String → List Events.DomainEvent → Store → Store
    handle_all fresh carrier_id [] s = s
    handle_all fresh carrier_id (ev ∷ evs) s =
        handle_all (λ n. fresh (suc n)) carrier_id evs
          (handle_domain_event (fresh 0) carrier_id ev s).0

    process_parsed :
        (ℕ → Fresh) → String → Store → Result (List Events.DomainEvent) → Store × Option Error
    unfolding handle_all
    process_parsed fresh carrier_id s (err x) = (s, some (wrapped "webhook: parse" x))
    process_parsed fresh carrier_id s (ok evs) = (handle_all fresh carrier_id evs s, none)

    process_with :
        (ℕ → Fresh)
        → String
        → Bytes
        → Map String String
        → Store
        → Result (Option Carrier)
        → Option (Store × Option Error)
    unfolding process_parsed
    process_with fresh carrier_id raw headers s (err x) = some (s, some x)
    process_with fresh carrier_id raw headers s (ok none) = none
    process_with fresh carrier_id raw headers s (ok (some c)) =
        some (process_parsed fresh carrier_id s (c.parse_webhook raw headers))

    -- Service.Process; `none` is the call of a method of a nil adapter.
    unfoldable pub process :
        (ℕ → Fresh)
        → Registry
        → String
        → Bytes
        → Map String String
        → Store
        → Option (Store × Option Error)
    unfolding process_with
    process fresh registry carrier_id raw headers s =
        process_with fresh carrier_id raw headers s (get carrier_id registry)
