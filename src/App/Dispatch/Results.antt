-- ===== src/App/Dispatch/Results.antt =====
-- What a dispatch leaves in the stores (internal/app/dispatch/service.go).
use dashfetchr.Base.{none, some, ◌≡◌, ap, ◌∙◌, List, arith, ==_iff, inl, inr}
use dashfetchr.Base.Uuid.{Uuid}
use dashfetchr.Base.Time.{Time}
use dashfetchr.Core.Errors.{Error, ok, Result-cases, not_pending}
use dashfetchr.Core.Delivery.States.{pending, assigned}
use dashfetchr.Core.Delivery.{Delivery, transition}
use dashfetchr.Core.Awb.{Awb}
use dashfetchr.Infra.Memory.AwbRepo as AwbRepo
use dashfetchr.Infra.Memory.DeliveryRepo.{get_by_id, save}
use dashfetchr.Infra.Memory.DeliveryRepo.Lookups.{get_by_id-save}
use dashfetchr.Ports.Carrier.{Carrier, ShipmentResponse, last_mile}
use dashfetchr.Routing.Strategy.{Strategy}
use dashfetchr.Routing.Engine.{decide_route, Decision}
use dashfetchr.App.Store.{Store}
use dashfetchr.App.Dispatch.{
  build_shipment_request, carried_by, assignment, dispatched, dispatch_delivery,
}

module _ (strategy : Strategy) (registered : List Carrier) (now later : Time) where
  pub assignment_parts :
      (a : Awb) (del : Delivery) {k : Delivery}
      → assignment strategy registered now later a del ≡ ok k
      → (dec : Decision) × (resp : ShipmentResponse) × (decide_route strategy now
            (build_shipment_request a del)
            last_mile
            registered
          ≡ ok dec)
        × (dec.chosen.create_shipment (build_shipment_request a del) ≡ ok resp)
        × (transition assigned "" later (carried_by dec.chosen resp del) ≡ (k, none))
  unfolding assignment
  assignment_parts a del h =
      let req = build_shipment_request a del in
      elim (Result-cases (decide_route strategy now req last_mile registered)) [
        | inr (x, p) ↦ absurd (ground arith)
        | inl (dec, p) ↦ elim (Result-cases (dec.chosen.create_shipment req)) [
          | inr (x, q) ↦ absurd (ground arith)
          | inl (resp, q) ↦ (dec, resp, p, q, ground arith)
        ]
      ]

  pub dispatched_parts :
      (id : Uuid) (s : Store) {k : Delivery}
      → dispatched strategy registered now later id s ≡ ok k
      → (del : Delivery) × (a : Awb) × (get_by_id id s.deliveries ≡ ok del)
        × (del.state ≡ pending)
        × (AwbRepo.get_by_id del.awb_id s.awbs ≡ ok a)
        × (assignment strategy registered now later a del ≡ ok k)
  unfolding dispatched
  dispatched_parts id s h = elim (Result-cases (get_by_id id s.deliveries)) [
    | inr (x, p) ↦ absurd (ground arith)
    | inl (del, p) ↦ elim (Result-cases (AwbRepo.get_by_id del.awb_id s.awbs)) [
      | inr (x, q) ↦ absurd (ground arith)
      | inl (a, q) ↦ (del, a, p, ground arith, q, ground arith)
    ]
  ]

  -- A dispatch that fails leaves the stores as they were.
  pub dispatch_delivery_err :
      (id : Uuid) (s : Store) {x : Error}
      → (dispatch_delivery strategy registered now later id s).1 ≡ some x
      → (dispatch_delivery strategy registered now later id s).0 ≡ s
  unfolding dispatch_delivery
  dispatch_delivery_err id s h = ground arith

  pub saved_as :
      (id : Uuid) (s : Store)
      → (dispatch_delivery strategy registered now later id s).1 ≡ none
      → (k : Delivery) × (dispatched strategy registered now later id s ≡ ok k)
        × ((dispatch_delivery strategy registered now later id s).0
            ≡ record s { deliveries = save k s.deliveries })
  unfolding dispatch_delivery
  saved_as id s h = elim (Result-cases (dispatched strategy registered now later id s)) [
    | inr (x, p) ↦ absurd (ground arith)
    | inl (k, p) ↦ (k, p, ground arith)
  ]

  pub moved :
      (c : Carrier) (resp : ShipmentResponse) (del : Delivery) {k : Delivery}
      → transition assigned "" later (carried_by c resp del) ≡ (k, none)
      → (k.id ≡ del.id)
        × (k.state ≡ assigned)
        × (k.carrier_id ≡ c.capabilities.id)
        × (k.carrier_external_id ≡ resp.external_id)
        × (k.awb_id ≡ del.awb_id)
  unfolding transition
  moved c resp del h = ground arith

  -- For a delivery that stands under its identifier: a dispatch that succeeds found it pending, and stores it assigned to the carrier that the
  -- engine chose, under the number that this carrier gave to the shipment.
  pub dispatch_delivery_ok :
      (id : Uuid) (s : Store)
      → (dispatch_delivery strategy registered now later id s).1 ≡ none
      → ((del : Delivery) → get_by_id id s.deliveries ≡ ok del → del.id ≡ id)
      → (del : Delivery) × (a : Awb) × (dec : Decision) × (resp : ShipmentResponse) × (k : Delivery)
        × (get_by_id id s.deliveries ≡ ok del)
        × (del.state ≡ pending)
        × (decide_route strategy now (build_shipment_request a del) last_mile registered ≡ ok dec)
        × (dec.chosen.create_shipment (build_shipment_request a del) ≡ ok resp)
        × (get_by_id id (dispatch_delivery strategy registered now later id s).0.deliveries ≡ ok k)
        × (k.state ≡ assigned)
        × (k.carrier_id ≡ dec.chosen.capabilities.id)
        × (k.carrier_external_id ≡ resp.external_id)
  dispatch_delivery_ok id s h named =
      let (k, p, eq) = saved_as id s h in
      let (del, a, g, st, ga, pa) = dispatched_parts id s p in
      let (dec, resp, pd, pc, pt) = assignment_parts a del pa in
      let (kid, kst, kc, kx, kw) = moved dec.chosen resp del pt in
      let own : k.id ≡ id = kid ∙ named del g in
      let got : get_by_id id (dispatch_delivery strategy registered now later id s).0.deliveries
          ≡ ok k =
        ap (λ (t : Store). get_by_id id t.deliveries) eq
        ∙ get_by_id-save k id s.deliveries
        ∙ (rw ((==_iff k.id id).1 own)) in
      (del, a, dec, resp, k, g, st, pd, pc, got, kst, kc, kx)

  refuses_assigned :
      (id : Uuid) (s : Store) {k : Delivery}
      → get_by_id id s.deliveries ≡ ok k
      → k.state ≡ assigned
      → dispatch_delivery strategy registered now later id s ≡ (s, some (not_pending id assigned))
  unfolding dispatch_delivery dispatched
  refuses_assigned id s g st = ground arith

-- A delivery that stands under its identifier and was dispatched is not dispatched again: the next call, with any strategy and any
-- carriers, changes nothing, and fails because the delivery is no longer pending.
pub dispatch_delivery-dispatch_delivery :
    (strategy other : Strategy) (registered others : List Carrier) (now later now2 later2 : Time)
    (id : Uuid) (s : Store)
    → ((del : Delivery) → get_by_id id s.deliveries ≡ ok del → del.id ≡ id)
    → (dispatch_delivery strategy registered now later id s).1 ≡ none
    → dispatch_delivery other others now2 later2 id
        (dispatch_delivery strategy registered now later id s).0
      ≡ ((dispatch_delivery strategy registered now later id s).0, some (not_pending id assigned))
dispatch_delivery-dispatch_delivery strategy other registered others now later now2 later2 id s
      named h =
    let (del, a, dec, resp, k, g, st, pd, pc, got, kst, kc, kx) =
      dispatch_delivery_ok strategy registered now later id s h named in
    refuses_assigned other others now2 later2 id
      (dispatch_delivery strategy registered now later id s).0 got kst
