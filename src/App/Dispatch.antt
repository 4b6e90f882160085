-- ===== src/App/Dispatch.antt =====
-- internal/app/dispatch/service.go: a pending delivery is routed, its shipment created, and the delivery
-- assigned. `registered` is what `ListByRole` returns to the engine. The routing log and the event bus,
-- whose errors the code drops, are added by Logged; logging is left out.
pub mod Results
pub mod Limits
pub mod Logged
use dashfetchr.Base.{ℕ, suc, Bool, not, Option, none, some, String, List, [], ◌∷◌, if◌then◌else◌}
use dashfetchr.Base.Int64.{ℤ, pos, ltb_ℤ}
use dashfetchr.Base.Float64.{Float64, whole}
use dashfetchr.Base.Time.{Time}
use dashfetchr.Base.Uuid.{Uuid}
use dashfetchr.Base.Maps.{Map}
use dashfetchr.Core.Errors.{Error, not_pending, Result, ok, err, ◌>>=◌, ◌>>◌, wrap, refuse_if}
use dashfetchr.Core.Delivery.States.{pending, assigned, is_pending}
use dashfetchr.Core.Delivery.{Delivery, LocationType, transition}
use dashfetchr.Core.Delivery as Delivery
use dashfetchr.Core.Awb.{Awb}
use dashfetchr.Infra.Memory.AwbRepo as AwbRepo
use dashfetchr.Infra.Memory.DeliveryRepo.{get_by_id, save, list_by_state}
use dashfetchr.Ports.Events.{GeoPoint}
use dashfetchr.Ports.Carrier.{
  Carrier, PickupMode, Address, Location, ShipmentRequest, ShipmentResponse, last_mile,
}
use dashfetchr.Ports.Carrier as Carrier
use dashfetchr.Routing.Strategy.{Strategy}
use dashfetchr.Routing.Engine.{decide_route}
use dashfetchr.App.Store.{Store}

unfoldable pub to_pickup_mode : LocationType → PickupMode
to_pickup_mode Delivery.locker = Carrier.locker
to_pickup_mode Delivery.hub = Carrier.hub
to_pickup_mode Delivery.address = Carrier.address

abbrev pub point : Float64 → Float64 → GeoPoint
point lat lng = record { lat = lat; lng = lng; accuracy_m = whole 0 }

unfoldable pub build_shipment_request : Awb → Delivery → ShipmentRequest
unfolding to_pickup_mode
build_shipment_request a del = record {
  internal_awb = a.internal_awb;
  idempotency_key = del.idempotency_key;
  pickup = record {
    type = to_pickup_mode del.pickup.type;
    point = point del.pickup.lat del.pickup.lng;
    address = record {
      street = del.pickup.address;
      city = "";
      postal_code = "";
      country = "";
      floor = "";
      apartment = "";
      instructions = "";
    };
    locker_id = del.pickup.locker_id;
    hub_id = "";
  };
  drop = record {
    type = Carrier.address;
    point = point del.drop.lat del.drop.lng;
    address = record {
      street = del.drop.address;
      city = "";
      postal_code = "";
      country = "";
      floor = del.drop.floor;
      apartment = del.drop.apartment;
      instructions = del.drop.instructions;
    };
    locker_id = "";
    hub_id = "";
  };
  pkg = record {
    weight_kg = a.pkg.weight_kg;
    length_cm = whole 0;
    width_cm = whole 0;
    height_cm = whole 0;
    declared_value_minor = pos 0;
    declared_value_ccy = "";
    description = "";
    fragile = Bool.false;
  };
  recipient = record { name = ""; phone = ""; email = "" };
  scheduled_start = del.scheduled_window_start;
  scheduled_end = del.scheduled_window_end;
  notes = "";
  require_photo_pod = Bool.true;
}

-- The fields that the carrier's answer sets.
abbrev pub carried_by : Carrier → ShipmentResponse → Delivery → Delivery
carried_by c resp del = record del {
  carrier_id = c.capabilities.id;
  carrier_external_id = resp.external_id;
  estimated_pickup_at = resp.estimated_pickup_at;
  estimated_drop_at = resp.estimated_drop_at;
}

abbrev pub or_error : Delivery × Option Error → Result Delivery
or_error (k, none) = ok k
or_error (k, some x) = err x

-- The two readings of the clock, by the engine and by `Transition`.
module _ (strategy : Strategy) (registered : List Carrier) where
  -- From the request on: the delivery that is saved.
  unfoldable pub assignment : (now later : Time) → Awb → Delivery → Result Delivery
  unfolding build_shipment_request transition
  assignment now later a del = do
    let req = build_shipment_request a del
    decision ← wrap "dispatch: routing" (decide_route strategy now req last_mile registered)
    resp ← wrap "dispatch: carrier create" (decision.chosen.create_shipment req)
    or_error (transition assigned "" later (carried_by decision.chosen resp del))

  unfoldable pub dispatched : (now later : Time) → Uuid → Store → Result Delivery
  unfolding assignment
  dispatched now later id s = do
    del ← get_by_id id s.deliveries
    refuse_if (not (is_pending del.state)) (not_pending id del.state)
    a ← AwbRepo.get_by_id del.awb_id s.awbs
    assignment now later a del

  saved : Store → Result Delivery → Store × Option Error
  saved s (err x) = (s, some x)
  saved s (ok k) = (record s { deliveries = save k s.deliveries }, none)

  -- Service.DispatchDelivery
  unfoldable pub dispatch_delivery : (now later : Time) → Uuid → Store → Store × Option Error
  unfolding saved
  dispatch_delivery now later id s = saved s (dispatched now later id s)

  unfoldable pub count_of : Option Error → ℕ → ℕ
  count_of none n = suc n
  count_of (some x) n = n

  -- The loop of `DispatchPending`, with the number of those dispatched so far.
  unfoldable pub dispatch_each : (ℕ → Time × Time) → List Delivery → ℕ → Store → Store × ℕ
  dispatch_each clock [] n s = (s, n)
  dispatch_each clock (del ∷ dels) n s =
      let (t, o) = dispatch_delivery (clock 0).0 (clock 0).1 del.id s in
      dispatch_each (λ i. clock (suc i)) dels (count_of o n) t

  module _ (order : Map Uuid Delivery → Map Uuid Delivery) where
    -- Service.DispatchPending; the in-memory store lists without an error.
    unfoldable pub dispatch_pending : (ℕ → Time × Time) → ℤ → Store → Store × ℕ
    unfolding dispatch_each
    dispatch_pending clock limit s =
        let n = if ltb_ℤ (pos 0) limit then limit else pos 20 in
        dispatch_each clock (list_by_state order pending n s.deliveries) 0 s
