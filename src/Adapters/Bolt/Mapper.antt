-- ===== src/Adapters/Bolt/Mapper.antt =====
-- internal/adapters/carriers/bolt/mapper.go: between Bolt's vocabulary and the domain's. `area` is the mapper's
-- service area. `wild` is what the processor makes of a float that does not fit in an int.
use dashfetchr.Base.{
  suc, true, ◌&&◌, ◌||◌, Option, none, some, String, List, [], ◌∷◌, ◌<>◌, str_eq, ◌*◌,
  if◌then◌else◌,
}
use dashfetchr.Base.Int64.{ℤ, pos, negsuc, int64, ◌-ℤ◌}
use dashfetchr.Base.Float64.{Float64, whole, le_f, eq_f}
use dashfetchr.Base.Float64.Arith.{mul_f, to_int}
use dashfetchr.Core.Errors.{
  Result, ok, ◌>>=◌, ◌>>◌, refuse_if, invalid_request, recipient_required, coordinates_required,
}
use dashfetchr.Ports.Events as Events
use dashfetchr.Ports.Events.{GeoPoint, Rider, BaseEvent, DomainEvent}
use dashfetchr.Ports.Carrier.{
  Location, Package, ShipmentRequest, ShipmentResponse, ShipmentStatus, ShipmentState,
  EstimateRequest, Estimate, Money,
}
use dashfetchr.Ports.Carrier as Carrier
use dashfetchr.Adapters.Bolt.Types.{
  BoltLocation, BoltPackage, BoltRider, BoltMoney, BoltCreateOrderRequest, BoltOrder,
  BoltEstimateRequest, BoltEstimateResponse, BoltWebhookPayload,
}

-- Domain to Bolt
unfoldable pub to_bolt_location : Location → Result BoltLocation
to_bolt_location l = do
  refuse_if (eq_f l.point.lat (whole 0) && eq_f l.point.lng (whole 0)) coordinates_required
  ok (record {
    lat = l.point.lat;
    lng = l.point.lng;
    address = l.address.street <> ", " <> l.address.city;
    floor = l.address.floor;
    apartment = l.address.apartment;
    notes = l.address.instructions;
  })

module _ (wild : Float64 → ℤ) where
  unfoldable pub to_bolt_package : Package → Result BoltPackage
  to_bolt_package p = do
    refuse_if (le_f p.weight_kg (whole 0)) invalid_request
    ok (record {
      weight_grams = to_int wild (mul_f p.weight_kg (whole 1000));
      dimensions = record {
        length_cm = to_int wild p.length_cm;
        width_cm = to_int wild p.width_cm;
        height_cm = to_int wild p.height_cm;
      };
      description = p.description;
      value = p.declared_value_minor;
      currency = p.declared_value_ccy;
    })

  module _ (area : String) where
    unfoldable pub to_bolt_create_order : ShipmentRequest → Result BoltCreateOrderRequest
    to_bolt_create_order r = do
      refuse_if (str_eq r.recipient.phone "") recipient_required
      pickup ← to_bolt_location r.pickup
      drop ← to_bolt_location r.drop
      pkg ← to_bolt_package r.pkg
      ok (record {
        external_ref = r.idempotency_key;
        pickup = pickup;
        drop = drop;
        pkg = pkg;
        recipient = record { name = r.recipient.name; phone = r.recipient.phone };
        service_area = area;
        requires_photo_pod = true;
        scheduled_for = r.scheduled_start;
      })

    unfoldable pub to_bolt_estimate : EstimateRequest → Result BoltEstimateRequest
    to_bolt_estimate r = do
      pickup ← to_bolt_location r.pickup
      drop ← to_bolt_location r.drop
      pkg ← to_bolt_package r.pkg
      ok (record {
        pickup = pickup;
        drop = drop;
        pkg = pkg;
        service_area = area;
        scheduled_for = r.when;
      })

-- Bolt to domain
unfoldable pub from_bolt_status : String → ShipmentState
from_bolt_status s =
    if str_eq s "pending"
    then Carrier.pending
    else if str_eq s "assigned"
    then Carrier.assigned
    else if str_eq s "picking_up" || str_eq s "en_route_pickup"
    then Carrier.en_route_pickup
    else if str_eq s "picked_up"
    then Carrier.picked_up
    else if str_eq s "delivering" || str_eq s "in_transit"
    then Carrier.in_transit
    else if str_eq s "arrived_at_drop"
    then Carrier.en_route_drop
    else if str_eq s "delivered" || str_eq s "completed"
    then Carrier.delivered
    else if str_eq s "failed"
    then Carrier.failed
    else if str_eq s "cancelled"
    then Carrier.cancelled
    else Carrier.unknown

abbrev pub from_bolt_rider : BoltRider → Rider
from_bolt_rider r = record { id = r.id; name = r.name; phone = r.phone; vehicle = r.vehicle }

abbrev from_bolt_rider? : Option BoltRider → Option Rider
from_bolt_rider? none = none
from_bolt_rider? (some r) = some (from_bolt_rider r)

unfoldable pub from_bolt_geo : Option BoltLocation → Option GeoPoint
from_bolt_geo none = none
from_bolt_geo (some l) = some (record { lat = l.lat; lng = l.lng; accuracy_m = whole 0 })

abbrev from_bolt_money : BoltMoney → Money
from_bolt_money m = record { currency = m.currency; minor = m.cents }

unfoldable pub from_bolt_order : BoltOrder → ShipmentResponse
unfolding from_bolt_status
from_bolt_order o = record {
  external_id = o.order_id;
  state = from_bolt_status o.status;
  estimated_cost = from_bolt_money o.price;
  estimated_pickup_at = o.estimated_pickup;
  estimated_drop_at = o.estimated_drop;
  tracking_url = o.tracking_url;
}

unfoldable pub from_bolt_order_status : BoltOrder → ShipmentStatus
unfolding from_bolt_status from_bolt_geo
from_bolt_order_status o = record {
  external_id = o.order_id;
  state = from_bolt_status o.status;
  rider = from_bolt_rider? o.rider;
  last_location = from_bolt_geo o.last_location;
  last_updated_at = o.updated_at;
}

-- time.Duration(n) * time.Second, in int64.
abbrev seconds : ℤ → ℤ
seconds (pos n) = int64 (pos (n * 1000000000))
seconds (negsuc n) = int64 (pos 0 -ℤ pos (suc n * 1000000000))

unfoldable pub from_bolt_estimate : BoltEstimateResponse → Estimate
from_bolt_estimate e = record {
  cost = from_bolt_money e.price;
  estimated_eta = seconds e.estimated_eta_sec;
  window_start_at = none;
  window_end_at = none;
  confidence_score = e.confidence;
}

-- Webhook to domain events
abbrev rider_or_zero : Option BoltRider → Rider
rider_or_zero none = record { id = ""; name = ""; phone = ""; vehicle = "" }
rider_or_zero (some r) = from_bolt_rider r

abbrev base : String → BoltWebhookPayload → BaseEvent
base type wh = record {
  type = type;
  time = wh.timestamp;
  ext_id = wh.order_id;
  carrier_id = "bolt_food";
}

unfoldable pub to_domain_events : BoltWebhookPayload → List DomainEvent
unfolding from_bolt_geo
to_domain_events wh =
    let geo = from_bolt_geo wh.location in
    if str_eq wh.event "order.assigned"
    then Events.rider_assigned (base "rider.assigned" wh) (rider_or_zero wh.rider) ∷ []
    else if str_eq wh.event "order.arrived_at_pickup"
    then Events.rider_arrived_at_pickup (base "rider.arrived_at_pickup" wh) geo wh.photo_url ∷ []
    else if str_eq wh.event "order.picked_up"
    then Events.package_picked_up (base "package.picked_up" wh) geo wh.photo_url ∷ []
    else if str_eq wh.event "order.in_transit"
    then Events.rider_in_transit (base "rider.in_transit" wh) geo ∷ []
    else if str_eq wh.event "order.arrived_at_drop"
    then Events.rider_arrived_at_destination (base "rider.arrived_at_destination" wh) geo ∷ []
    else if str_eq wh.event "order.delivered"
    then Events.package_delivered (base "package.delivered" wh) geo wh.photo_url "" ∷ []
    else if str_eq wh.event "order.failed"
    then Events.delivery_failed (base "delivery.failed" wh) wh.reason geo wh.photo_url ∷ []
    else if str_eq wh.event "order.cancelled"
    then Events.shipment_cancelled (base "shipment.cancelled" wh) wh.reason ∷ []
    else []
