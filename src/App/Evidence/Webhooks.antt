-- ===== src/App/Evidence/Webhooks.antt =====
-- The evidence of the stored deliveries under webhooks (internal/app/webhook/service.go).
use dashfetchr.Base.{some, ◌≡◌, ◌∙◌, String, List, arith, str_eq, Bool-cases, inl, inr}
use dashfetchr.Base.Uuid.{Uuid}
use dashfetchr.Base.Maps.{Map, lookup, nat_eq, IsOrder}
use dashfetchr.Base.Entries.{lookup_of_mem}
use dashfetchr.Core.Errors.{is_not_found, Result-cases}
use dashfetchr.Core.Delivery.{Delivery, transition, cancel}
use dashfetchr.Core.Custody.{Event}
use dashfetchr.Core.Custody.Hashing.{Digest}
use dashfetchr.Infra.Memory.CustodyRepo.{events_of}
use dashfetchr.Infra.Memory.DeliveryRepo.{get_by_carrier_external_id, save}
use dashfetchr.Infra.Memory.DeliveryRepo.Lookups.{get_by_carrier_external_id_ok}
use dashfetchr.Ports.Events as Events
use dashfetchr.App.Store.{Store}
use dashfetchr.App.Custodyapp.{Fresh}
use dashfetchr.App.Custodyapp.Effects.{IsUnused}
use dashfetchr.App.Webhook.{
  assigned_input, with_rider, on_rider_assigned, dispatch_event, handle_domain_event,
}
use dashfetchr.App.Evidence.{IsEvidenced}
use dashfetchr.App.Evidence.Stores.{IsCovered, save-IsCovered, record_custody-IsCovered}

-- A rider is named, and at most the state moves from pending to assigned.
with_rider-IsEvidenced :
    (f : Fresh) (r : Events.Rider) (del : Delivery) (es : List Event)
    → IsEvidenced del es
    → IsEvidenced (with_rider f r del) es
unfolding with_rider transition
with_rider-IsEvidenced f r del es v = record {
  pickup = λ h. v.pickup (ground arith);
  pickup_time = λ h. ground (arith, v.pickup_time (ground arith));
  drop = λ h. v.drop (ground arith);
  drop_time = λ h. ground (arith, v.drop_time (ground arith));
}

with_rider_id : (f : Fresh) (r : Events.Rider) (del : Delivery) → (with_rider f r del).id ≡ del.id
unfolding with_rider transition
with_rider_id f r del = ground arith

cancel-IsEvidenced :
    (reason : String) (f : Fresh) (del : Delivery) (es : List Event)
    → IsEvidenced del es
    → IsEvidenced (cancel reason f.now del).0 es
unfolding cancel transition
cancel-IsEvidenced reason f del es v = record {
  pickup = λ h. v.pickup (ground arith);
  pickup_time = λ h. ground (arith, v.pickup_time (ground arith));
  drop = λ h. v.drop (ground arith);
  drop_time = λ h. ground (arith, v.drop_time (ground arith));
}

cancel_id : (reason : String) (f : Fresh) (del : Delivery) → (cancel reason f.now del).0.id ≡ del.id
unfolding cancel transition
cancel_id reason f del = ground arith

module _ (d : Digest) (f : Fresh) (s : Store) (fresh : IsUnused f.event_id s.custody)
    (v : IsCovered s.deliveries s.custody) where
  module _ (id : Uuid) (del : Delivery) (there : lookup id s.deliveries.by_id ≡ some del) where
    on_rider_assigned-IsCovered :
        (carrier_id : String) (r : Events.Rider)
        → IsCovered
            (on_rider_assigned d f del carrier_id r s).0.deliveries
            (on_rider_assigned d f del carrier_id r s).0.custody
    unfolding on_rider_assigned
    on_rider_assigned-IsCovered carrier_id r = elim (Bool-cases (str_eq r.id "")) [
      | inl t ↦ rw t (record_custody-IsCovered d f (assigned_input del.id carrier_id r) s fresh v)
      | inr n ↦ rw n (
          record_custody-IsCovered d f (assigned_input del.id carrier_id r)
            (record s { deliveries = save (with_rider f r del) s.deliveries }) fresh
            (save-IsCovered (with_rider f r del) id s.deliveries s.custody
              (with_rider_id f r del ∙ v.named id del there)
              (with_rider-IsEvidenced f r del (events_of s.custody id) (v.evidence id del there))
              v))
    ]

    dispatch_event-IsCovered :
        (carrier_id : String) (ev : Events.DomainEvent)
        → IsCovered
            (dispatch_event d f del carrier_id ev s).0.deliveries
            (dispatch_event d f del carrier_id ev s).0.custody
    unfolding dispatch_event
    dispatch_event-IsCovered carrier_id (Events.rider_assigned b r) =
        on_rider_assigned-IsCovered carrier_id r
    dispatch_event-IsCovered carrier_id (Events.rider_arrived_at_pickup b loc photo) =
        record_custody-IsCovered d f _ s fresh v
    dispatch_event-IsCovered carrier_id (Events.package_picked_up b loc photo) =
        record_custody-IsCovered d f _ s fresh v
    dispatch_event-IsCovered carrier_id (Events.rider_in_transit b loc) = v
    dispatch_event-IsCovered carrier_id (Events.rider_arrived_at_destination b loc) = v
    dispatch_event-IsCovered carrier_id (Events.package_delivered b loc photo signature) =
        record_custody-IsCovered d f _ s fresh v
    dispatch_event-IsCovered carrier_id (Events.delivery_failed b reason loc photo) =
        record_custody-IsCovered d f _ s fresh v
    dispatch_event-IsCovered carrier_id (Events.shipment_cancelled b reason) =
        save-IsCovered (cancel reason f.now del).0 id s.deliveries s.custody
          (cancel_id reason f del ∙ v.named id del there)
          (cancel-IsEvidenced reason f del (events_of s.custody id) (v.evidence id del there)) v
    dispatch_event-IsCovered carrier_id (Events.package_returned_to_locker b loc photo k) = v

  module _ (order : Map Uuid Delivery → Map Uuid Delivery) (visits : IsOrder order) where
    -- One event of a webhook keeps the states covered.
    pub handle_domain_event-IsCovered :
        (carrier_id : String) (ev : Events.DomainEvent)
        → IsCovered
            (handle_domain_event d order f carrier_id ev s).0.deliveries
            (handle_domain_event d order f carrier_id ev s).0.custody
    unfolding handle_domain_event
    handle_domain_event-IsCovered carrier_id ev =
        let x = Events.external_id ev in
        elim (Bool-cases (str_eq x "")) [
          | inl t ↦ rw t v
          | inr n ↦
              rw n
                (elim (Result-cases (get_by_carrier_external_id order carrier_id x s.deliveries)) [
                  | inl (del, g) ↦
                      let (id, a, t) =
                        get_by_carrier_external_id_ok order visits carrier_id x s.deliveries g in
                      rw g (
                        dispatch_event-IsCovered id del
                          (lookup_of_mem id del s.deliveries.by_id a v.entries) carrier_id ev)
                  | inr (y, g) ↦
                      rw g (elim (Bool-cases (is_not_found y)) [ inl t ↦ rw t v | inr n ↦ rw n v ])
                ])
        ]
