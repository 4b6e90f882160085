-- ===== src/App/Shortfalls.antt =====
-- About what the webhooks (internal/app/webhook/service.go) leave undone: assignments, and the states that
-- only the events of the rider lead to.
use dashfetchr.Base.{
  ◌≡◌, ◌≢◌, refl, ◌∙◌, String, arith, none, some, true, false, Bool, ◌⊎◌, inl, inr, Bool-cases,
  str_eq, ◌==◌, ==_iff,
}
use dashfetchr.Base.Time.{Time}
use dashfetchr.Base.Uuid.{Uuid}
use dashfetchr.Base.Entries.{lookup_of_mem}
use dashfetchr.Infra.Memory.DeliveryRepo.Index.{by_id-save}
use dashfetchr.App.Evidence.Stores.{IsCovered, found}
use dashfetchr.Base.Maps.{nat_eq, Map, lookup, IsOrder}
use dashfetchr.Core.Errors.{is_not_found, ok, Result-cases}
use dashfetchr.Core.Delivery.States.{
  State, pending, assigned, in_transit, en_route_drop, delivered, allowed_transitions,
}
use dashfetchr.Core.Delivery.{
  Delivery, transition, mark_picked_up, mark_delivered, mark_failed, cancel,
}
use dashfetchr.Core.Custody.{EventType, rider_in_transit, rider_arrived_at_destination}
use dashfetchr.Core.Custody.Hashing.{Digest}
use dashfetchr.Infra.Memory.DeliveryRepo.{DeliveryRepo, get_by_id, save, get_by_carrier_external_id}
use dashfetchr.Infra.Memory.DeliveryRepo.Lookups.{get_by_carrier_external_id_ok, get_by_id-save}
use dashfetchr.Ports.Events as Events
use dashfetchr.App.Store.{Store}
use dashfetchr.App.Custodyapp.{
  RecordInput, Fresh, record_custody, Outcome-cases, apply_delivery_transition,
}
use dashfetchr.App.Custodyapp.Effects.{
  record_custody_late, record_custody_refused, IsUnused, record_custody_ok,
}
use dashfetchr.App.Webhook.{
  webhook_input, with_rider, on_rider_assigned, dispatch_event, handle_domain_event, assigned_input,
  error_of,
}

-- An assignment is not recorded without an error for a delivery that is assigned already.
refuses_assigned :
    (d : Digest) (f : Fresh) (carrier_id : String) (r : Events.Rider) (s : Store) {k : Delivery}
    (id : Uuid)
    → IsUnused f.event_id s.custody
    → get_by_id id s.deliveries ≡ ok k
    → k.state ≡ assigned
    → error_of (record_custody d f (assigned_input id carrier_id r) s).1 ≢ none
unfolding apply_delivery_transition transition allowed_transitions
refuses_assigned d f carrier_id r s id fresh g st =
    let i = assigned_input id carrier_id r in
    elim (Outcome-cases (record_custody d f i s).1) [
      | inl (x, h) ↦ λ q. ground arith
      | inr (e, inr (x, h)) ↦ λ q. ground arith
      | inr (e, inl h) ↦
          let (del, j, gd, v, t, step, kept, grown) = record_custody_ok d f i s fresh h in
          λ q. ground arith
    ]

with_rider_fields :
    (f : Fresh) (r : Events.Rider) (del : Delivery)
    → (del.state ≡ pending) ⊎ (del.state ≡ assigned)
    → ((with_rider f r del).id ≡ del.id) × ((with_rider f r del).state ≡ assigned)
unfolding with_rider transition allowed_transitions
with_rider_fields f r del (inl h) = ground arith
with_rider_fields f r del (inr h) = ground arith

-- A webhook that names the rider of a delivery that is pending or assigned, and records under an
-- identifier that no stored event has, always ends in an error: the
-- delivery is assigned first, and the recorded event then asks for the same transition again.
pub on_rider_assigned_fails :
    (d : Digest) (f : Fresh) (carrier_id : String) (r : Events.Rider) (s : Store) (del : Delivery)
    → IsUnused f.event_id s.custody
    → str_eq r.id "" ≡ false
    → (del.state ≡ pending) ⊎ (del.state ≡ assigned)
    → (on_rider_assigned d f del carrier_id r s).1 ≢ none
unfolding on_rider_assigned
on_rider_assigned_fails d f carrier_id r s del fresh named st =
    let (id, at) = with_rider_fields f r del st in
    let k = with_rider f r del in
    let got : get_by_id del.id (save k s.deliveries) ≡ ok k =
      get_by_id-save k del.id s.deliveries ∙ (rw ((==_iff k.id del.id).1 id)) in
    let t : Store = record s { deliveries = save k s.deliveries } in
    simp named (refuses_assigned d f carrier_id r t del.id fresh got at)

-- The states that only the rider's own events lead to.
abbrev pub is_on_the_way : State → Bool
is_on_the_way in_transit = true
is_on_the_way en_route_drop = true
is_on_the_way delivered = true
is_on_the_way _ = false

abbrev pub is_rider_only : EventType → Bool
is_rider_only rider_in_transit = true
is_rider_only rider_arrived_at_destination = true
is_rider_only _ = false

-- No stored delivery is in such a state.
abbrev pub IsBefore : DeliveryRepo → Type 0
IsBefore r =
    (id : Uuid) (del : Delivery) → lookup id r.by_id ≡ some del → is_on_the_way del.state ≡ false

apply_before :
    (t : EventType) (at now : Time) (del : Delivery) {k : Delivery}
    → is_rider_only t ≡ false
    → is_on_the_way del.state ≡ false
    → apply_delivery_transition t at now del ≡ (k, none)
    → is_on_the_way k.state ≡ false
unfolding apply_delivery_transition transition mark_picked_up mark_delivered mark_failed
    allowed_transitions
apply_before t at now del h b step = ground arith

pub save-IsBefore :
    (k : Delivery) (r : DeliveryRepo)
    → is_on_the_way k.state ≡ false
    → IsBefore r
    → IsBefore (save k r)
save-IsBefore k r h b id del l = elim (Bool-cases (k.id == id)) [
  | inl t ↦ ground (arith, by_id-save k r id)
  | inr f ↦ b id del (ground (arith, by_id-save k r id))
]

record_custody-IsBefore :
    (d : Digest) (f : Fresh) (i : RecordInput) (s : Store)
    → IsUnused f.event_id s.custody
    → is_rider_only i.type ≡ false
    → IsBefore s.deliveries
    → IsBefore (record_custody d f i s).0.deliveries
record_custody-IsBefore d f i s fresh h b = elim (Outcome-cases (record_custody d f i s).1) [
  | inl (x, o) ↦ rw (record_custody_refused d f i s fresh o).0 b
  | inr (e, inr (x, o)) ↦
      let (del, g, x_eq, same, grown) = record_custody_late d f i s fresh o in rw same b
  | inr (e, inl o) ↦
      let (del, k, g, v, t, step, same, grown) = record_custody_ok d f i s fresh o in
      rw same (
        save-IsBefore k s.deliveries
          (apply_before i.type f.at f.now del h
            (b i.delivery_id del (found i.delivery_id s.deliveries g)) step)
          b)
]

with_rider_before :
    (f : Fresh) (r : Events.Rider) (del : Delivery)
    → is_on_the_way del.state ≡ false
    → is_on_the_way (with_rider f r del).state ≡ false
unfolding with_rider transition
with_rider_before f r del h = ground arith

cancel_before :
    (reason : String) (now : Time) (del : Delivery)
    → is_on_the_way del.state ≡ false
    → is_on_the_way (cancel reason now del).0.state ≡ false
unfolding cancel transition
cancel_before reason now del h = ground arith

module _ (d : Digest) (f : Fresh) (s : Store) (fresh : IsUnused f.event_id s.custody)
    (v : IsCovered s.deliveries s.custody) (b : IsBefore s.deliveries) where
  on_rider_assigned-IsBefore :
      (del : Delivery) (carrier_id : String) (r : Events.Rider)
      → is_on_the_way del.state ≡ false
      → IsBefore (on_rider_assigned d f del carrier_id r s).0.deliveries
  unfolding on_rider_assigned
  on_rider_assigned-IsBefore del carrier_id r h = elim (Bool-cases (str_eq r.id "")) [
    | inl t ↦ rw t (record_custody-IsBefore d f (assigned_input del.id carrier_id r) s fresh refl b)
    | inr n ↦ rw n (
        record_custody-IsBefore d f (assigned_input del.id carrier_id r)
          (record s { deliveries = save (with_rider f r del) s.deliveries }) fresh refl
          (save-IsBefore (with_rider f r del) s.deliveries (with_rider_before f r del h) b))
  ]

  dispatch_event-IsBefore :
      (del : Delivery) (carrier_id : String) (ev : Events.DomainEvent)
      → is_on_the_way del.state ≡ false
      → IsBefore (dispatch_event d f del carrier_id ev s).0.deliveries
  unfolding dispatch_event webhook_input
  dispatch_event-IsBefore del carrier_id (Events.rider_assigned a r) h =
      on_rider_assigned-IsBefore del carrier_id r h
  dispatch_event-IsBefore del carrier_id (Events.rider_arrived_at_pickup a loc photo) h =
      record_custody-IsBefore d f _ s fresh refl b
  dispatch_event-IsBefore del carrier_id (Events.package_picked_up a loc photo) h =
      record_custody-IsBefore d f _ s fresh refl b
  dispatch_event-IsBefore del carrier_id (Events.rider_in_transit a loc) h = b
  dispatch_event-IsBefore del carrier_id (Events.rider_arrived_at_destination a loc) h = b
  dispatch_event-IsBefore del carrier_id (Events.package_delivered a loc photo signature) h =
      record_custody-IsBefore d f _ s fresh refl b
  dispatch_event-IsBefore del carrier_id (Events.delivery_failed a reason loc photo) h =
      record_custody-IsBefore d f _ s fresh refl b
  dispatch_event-IsBefore del carrier_id (Events.shipment_cancelled a reason) h =
      save-IsBefore (cancel reason f.now del).0 s.deliveries (cancel_before reason f.now del h) b
  dispatch_event-IsBefore del carrier_id (Events.package_returned_to_locker a loc photo k) h = b

  -- Over stores whose states are covered by evidence, and with an identifier that no stored event has,
  -- no event of a webhook takes a delivery in transit, en route to the drop, or to delivered, as long as
  -- no stored delivery is there already: the events that lead there are not handled.
  pub handle_domain_event-IsBefore :
      (order : Map Uuid Delivery → Map Uuid Delivery) (carrier_id : String)
      (ev : Events.DomainEvent)
      → IsOrder order
      → IsBefore (handle_domain_event d order f carrier_id ev s).0.deliveries
  unfolding handle_domain_event
  handle_domain_event-IsBefore order carrier_id ev visits =
      let x = Events.external_id ev in
      elim (Bool-cases (str_eq x "")) [
        | inl t ↦ rw t b
        | inr n ↦
            rw n (elim (Result-cases (get_by_carrier_external_id order carrier_id x s.deliveries)) [
              | inl (del, g) ↦
                  let (id, a, t) =
                    get_by_carrier_external_id_ok order visits carrier_id x s.deliveries g in
                  rw g (
                    dispatch_event-IsBefore del carrier_id ev
                      (b id del (lookup_of_mem id del s.deliveries.by_id a v.entries)))
              | inr (y, g) ↦
                  rw g (elim (Bool-cases (is_not_found y)) [ inl t ↦ rw t b | inr n ↦ rw n b ])
            ])
      ]
