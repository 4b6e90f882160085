-- ===== src/App/Dispatch/Logged.antt =====
-- internal/app/dispatch/service.go, with what the service tells the routing log and the event bus, whose errors it
-- drops. `print` is how the reasons of a decision are printed; the handlers of the bus act on a state `S`.
pub mod Refines
use dashfetchr.Base.{
  ℕ, suc, not, Option, none, some, String, List, [], ◌∷◌, if◌then◌else◌, ◌≡◌, refl, ap, ◌∙◌, arith,
  inl, inr, ◌==◌, ==_iff, ◌++◌, ◌≢◌,
}
use dashfetchr.Base.Int64.{ℤ, pos, ltb_ℤ}
use dashfetchr.Base.Time.{Time}
use dashfetchr.Base.Uuid.{Uuid}
use dashfetchr.Base.Maps.{Map, lookup, nat_eq, or_nil}
use dashfetchr.Core.Errors.{Error, not_pending, wrapped, Result, ok, err, Result-cases}
use dashfetchr.Core.Delivery.States.{pending, assigned, is_pending}
use dashfetchr.Core.Delivery.{Delivery, transition}
use dashfetchr.Core.Awb.{Awb}
use dashfetchr.Infra.Memory.AwbRepo as AwbRepo
use dashfetchr.Infra.Memory.DeliveryRepo.{get_by_id, save, list_by_state}
use dashfetchr.Infra.Memory.RoutingRepo as RoutingRepo
use dashfetchr.Infra.Memory.RoutingRepo.{RoutingRepo, RoutingDecisionRecord, lookup-save}
use dashfetchr.Infra.Events.{EventHandler, deliver, publish}
use dashfetchr.Ports.Carrier.{Carrier, ShipmentResponse, last_mile}
use dashfetchr.Ports.Events.{DomainEvent, Rider, rider_assigned}
use dashfetchr.Routing.Strategy.{Strategy, Reasoning}
use dashfetchr.Routing.Engine.{Decision, decide_route}
use dashfetchr.App.Store.{Store}
use dashfetchr.App.Dispatch.{
  build_shipment_request, carried_by, or_error, assignment, dispatched, dispatch_delivery, count_of,
  dispatch_each, dispatch_pending,
}

-- The stores, the log, and what the handlers of the bus act on.
pub record World (S : Type 0) : Type 0 where
  pub store : Store
  pub log : RoutingRepo
  pub heard : S

abbrev nobody : Rider
nobody = record { id = ""; name = ""; phone = ""; vehicle = "" }

-- The event of a delivery that is assigned.
unfoldable pub announcement : Decision → ShipmentResponse → DomainEvent
announcement dec resp =
    rider_assigned
      (record {
        type = "rider.assigned";
        time = dec.decided_at;
        ext_id = resp.external_id;
        carrier_id = dec.chosen.capabilities.id;
      })
      nobody

module _ {S : Type 0} (handlers : List (EventHandler S)) (print : Reasoning → String)
    (strategy : Strategy) (registered : List Carrier) where
  unfoldable pub entry : Decision → RoutingDecisionRecord
  entry dec = record {
    strategy = dec.strategy;
    chosen_id = dec.chosen.capabilities.id;
    score = dec.score;
    reasoning = print dec.reasoning;
    candidates = "";
  }

  finish : Decision → ShipmentResponse → World S → Result Delivery → World S × Option Error
  unfolding announcement publish
  finish dec resp w (err x) = (w, some x)
  finish dec resp w (ok k) = (
    record w {
      store = record w.store { deliveries = save k w.store.deliveries };
      heard = (publish handlers (announcement dec resp ∷ []) w.heard).0;
    },
    none,
  )

  ship : Decision → Time → Delivery → World S → Result ShipmentResponse → World S × Option Error
  unfolding finish transition
  ship dec later del w (err x) = (w, some (wrapped "dispatch: carrier create" x))
  ship dec later del w (ok resp) =
      finish dec resp w (or_error (transition assigned "" later (carried_by dec.chosen resp del)))

  routed : Time → Uuid → Awb → Delivery → World S → Result Decision → World S × Option Error
  unfolding ship entry build_shipment_request
  routed later id a del w (err x) = (w, some (wrapped "dispatch: routing" x))
  routed later id a del w (ok dec) =
      ship dec later del (record w { log = RoutingRepo.save id (entry dec) w.log })
        (dec.chosen.create_shipment (build_shipment_request a del))

  with_parcel : (now later : Time) → Uuid → Delivery → World S → Result Awb → World S × Option Error
  unfolding routed build_shipment_request
  with_parcel now later id del w (err x) = (w, some x)
  with_parcel now later id del w (ok a) =
      routed later id a del w
        (decide_route strategy now (build_shipment_request a del) last_mile registered)

  with_delivery : (now later : Time) → Uuid → World S → Result Delivery → World S × Option Error
  unfolding with_parcel
  with_delivery now later id w (err x) = (w, some x)
  with_delivery now later id w (ok del) =
      if not (is_pending del.state)
      then (w, some (not_pending id del.state))
      else with_parcel now later id del w (AwbRepo.get_by_id del.awb_id w.store.awbs)

  -- Service.DispatchDelivery
  unfoldable pub dispatch_logged : (now later : Time) → Uuid → World S → World S × Option Error
  unfolding with_delivery
  dispatch_logged now later id w = with_delivery now later id w (get_by_id id w.store.deliveries)

  -- The loop of DispatchPending
  unfoldable pub each_logged : (ℕ → Time × Time) → List Delivery → ℕ → World S → World S × ℕ
  unfolding count_of
  each_logged clock [] n w = (w, n)
  each_logged clock (del ∷ dels) n w =
      let (v, o) = dispatch_logged (clock 0).0 (clock 0).1 del.id w in
      each_logged (λ i. clock (suc i)) dels (count_of strategy registered o n) v

  module _ (order : Map Uuid Delivery → Map Uuid Delivery) where
    -- Service.DispatchPending
    unfoldable pub pending_logged : (ℕ → Time × Time) → ℤ → World S → World S × ℕ
    unfolding each_logged
    pending_logged clock limit w =
        let n = if ltb_ℤ (pos 0) limit then limit else pos 20 in
        each_logged clock (list_by_state order pending n w.store.deliveries) 0 w
