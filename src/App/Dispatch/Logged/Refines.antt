-- ===== src/App/Dispatch/Logged/Refines.antt =====
-- About a dispatch that logs and publishes (internal/app/dispatch/service.go).
use dashfetchr.Base.{
  ℕ, suc, Option, none, some, String, List, [], ◌∷◌, if◌then◌else◌, ◌≡◌, refl, ap, ◌∙◌, arith, inl,
  inr, Bool-cases, ◌⊎◌,
}
use dashfetchr.Base.Int64.{ℤ, pos, ltb_ℤ}
use dashfetchr.Base.Time.{Time}
use dashfetchr.Base.Uuid.{Uuid}
use dashfetchr.Base.Maps.{Map, nat_eq}
use dashfetchr.Core.Errors.{Error, not_pending, wrapped, ok, Result-cases}
use dashfetchr.Core.Delivery.States.{pending, assigned, is_pending}
use dashfetchr.Core.Delivery.{Delivery, transition}
use dashfetchr.Infra.Memory.AwbRepo as AwbRepo
use dashfetchr.Infra.Memory.DeliveryRepo.{get_by_id, list_by_state}
use dashfetchr.Infra.Memory.RoutingRepo as RoutingRepo
use dashfetchr.Infra.Memory.RoutingRepo.{lookup-save}
use dashfetchr.Infra.Events.{EventHandler, deliver, publish}
use dashfetchr.Ports.Carrier.{ShipmentRequest, Carrier, ShipmentResponse, last_mile}
use dashfetchr.Routing.Strategy.{Strategy, Reasoning}
use dashfetchr.Routing.Engine.{Decision, decide_route}
use dashfetchr.App.Store.{Store}
use dashfetchr.App.Dispatch.{
  build_shipment_request, carried_by, or_error, assignment, dispatched, dispatch_delivery, count_of,
  dispatch_each, dispatch_pending,
}
use dashfetchr.App.Dispatch.Logged.{
  World, announcement, entry, dispatch_logged, each_logged, pending_logged,
}

module _ {S : Type 0} (handlers : List (EventHandler S)) (print : Reasoning → String)
    (strategy : Strategy) (registered : List Carrier) where
  -- What a dispatch leaves beside the stores: nothing new, and then it failed; or a decision at the end of the
  -- delivery's log, and then no event where it failed, and the announcement where it succeeded.
  abbrev pub IsTold : Time → Uuid → World S → World S → Option Error → Type 0
  IsTold now id w v o =
      ((v.log ≡ w.log) × (v.heard ≡ w.heard) × ((x : Error) × (o ≡ some x)))
      ⊎ ((req : ShipmentRequest) × (dec : Decision) × (decide_route strategy now req last_mile
              registered
            ≡ ok dec)
          × (v.log ≡ RoutingRepo.save id (entry handlers print strategy registered dec) w.log)
          × (((v.heard ≡ w.heard) × ((x : Error) × (o ≡ some x)))
              ⊎ ((resp : ShipmentResponse) × (dec.chosen.create_shipment req ≡ ok resp)
                  × (o ≡ none)
                  × (v.heard ≡ deliver handlers (announcement dec resp) w.heard))))

  module _ (now later : Time) (id : Uuid) (w : World S) where
    -- A dispatch that logs and publishes leaves the stores, and returns the error, that it does without, whatever
    -- the handlers of the bus do. It logs at most one decision, which the engine made, under its delivery. Where it
    -- succeeds it has logged one, and publishes one event, the announcement of what the chosen carrier
    -- answered; where it fails it publishes none.
    pub dispatch_logged_lem :
        ((
          (dispatch_logged handlers print strategy registered now later id w).0.store,
          (dispatch_logged handlers print strategy registered now later id w).1,
        )
          ≡ dispatch_delivery strategy registered now later id w.store)
        × IsTold now id w
            (dispatch_logged handlers print strategy registered now later id w).0
            (dispatch_logged handlers print strategy registered now later id w).1
    unfolding dispatch_logged dispatch_delivery dispatched assignment publish deliver
    dispatch_logged_lem = elim (Result-cases (get_by_id id w.store.deliveries)) [
      | inr (x, p) ↦ (ground arith, inl (ground arith, ground arith, (x, ground arith)))
      | inl (del, p) ↦ elim (Bool-cases (is_pending del.state)) [
        | inr n ↦ (
          ground arith,
          inl (ground arith, ground arith, (not_pending id del.state, ground arith)),
        )
        | inl y ↦ elim (Result-cases (AwbRepo.get_by_id del.awb_id w.store.awbs)) [
          | inr (x, q) ↦ (ground arith, inl (ground arith, ground arith, (x, ground arith)))
          | inl (a, q) ↦
              let req = build_shipment_request a del in
              elim (Result-cases (decide_route strategy now req last_mile registered)) [
                | inr (x, u) ↦ (
                  ground arith,
                  inl (ground arith, ground arith, (wrapped "dispatch: routing" x, ground arith)),
                )
                | inl (dec, u) ↦ elim (Result-cases (dec.chosen.create_shipment req)) [
                  | inr (x, r) ↦ (
                    ground arith,
                    inr (
                      req,
                      dec,
                      u,
                      ground arith,
                      inl (ground arith, (wrapped "dispatch: carrier create" x, ground arith)),
                    ),
                  )
                  | inl (resp, r) ↦
                      elim (Result-cases (
                        or_error (transition assigned "" later (carried_by dec.chosen resp del)))) [
                          | inr (x, t) ↦ (
                            ground arith,
                            inr (req, dec, u, ground arith, inl (ground arith, (x, ground arith))),
                          )
                          | inl (k, t) ↦ (
                            ground arith,
                            inr (
                              req,
                              dec,
                              u,
                              ground arith,
                              inr (resp, r, ground arith, ground arith),
                            ),
                          )
                        ]
                ]
              ]
        ]
      ]
    ]

  -- DispatchDelivery with its log and its bus leaves the stores, and returns the error, that it does without.
  pub dispatch_delivery-dispatch_logged :
      (now later : Time) (id : Uuid) (w : World S)
      → (
        (dispatch_logged handlers print strategy registered now later id w).0.store,
        (dispatch_logged handlers print strategy registered now later id w).1,
      )
        ≡ dispatch_delivery strategy registered now later id w.store
  dispatch_delivery-dispatch_logged now later id w = (dispatch_logged_lem now later id w).0

  each_refines :
      (clock : ℕ → Time × Time) (dels : List Delivery) (n : ℕ) (w : World S)
      → (
        (each_logged handlers print strategy registered clock dels n w).0.store,
        (each_logged handlers print strategy registered clock dels n w).1,
      )
        ≡ dispatch_each strategy registered clock dels n w.store
  unfolding each_logged dispatch_each
  each_refines clock [] n w = refl
  each_refines clock (del ∷ dels) n w =
      let step =
        dispatch_logged handlers print strategy registered (clock 0).0 (clock 0).1 del.id w in
      each_refines (λ i. clock (suc i)) dels (count_of strategy registered step.1 n) step.0
      ∙ ap
          (λ (p : Store × Option Error).
            dispatch_each strategy registered (λ i. clock (suc i)) dels
              (count_of strategy registered p.1 n) p.0)
          (dispatch_delivery-dispatch_logged (clock 0).0 (clock 0).1 del.id w)

  -- DispatchPending with its log and its bus leaves the stores, and returns the number, that it does without,
  -- whatever the handlers of the bus do.
  pub dispatch_pending-pending_logged :
      (order : Map Uuid Delivery → Map Uuid Delivery) (clock : ℕ → Time × Time) (limit : ℤ)
      (w : World S)
      → (
        (pending_logged handlers print strategy registered order clock limit w).0.store,
        (pending_logged handlers print strategy registered order clock limit w).1,
      )
        ≡ dispatch_pending strategy registered order clock limit w.store
  unfolding pending_logged dispatch_pending
  dispatch_pending-pending_logged order clock limit w =
      each_refines clock
        (list_by_state order pending (if ltb_ℤ (pos 0) limit then limit else pos 20)
          w.store.deliveries)
        0 w
