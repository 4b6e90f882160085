-- ===== src/App/Chains.antt =====
-- About the hash chains of all deliveries under the services (internal/app).
use dashfetchr.Base.{String, inl, inr, Bool-cases, str_eq}
use dashfetchr.Base.Uuid.{Uuid}
use dashfetchr.Base.Maps.{Map, lookup}
use dashfetchr.Core.Errors.{Result-cases, is_not_found}
use dashfetchr.Core.Delivery.{Delivery}
use dashfetchr.Core.Custody.Hashing.{Digest}
use dashfetchr.Core.Custody.Recording.{IsIntact, record_event-IsIntact}
use dashfetchr.Infra.Memory.CustodyRepo.{
  events_of, custody_repository, custody_repository-IsRepository,
}
use dashfetchr.Infra.Memory.DeliveryRepo.{save, get_by_carrier_external_id}
use dashfetchr.Ports.Events as Events
use dashfetchr.App.Store.{Store, new_store}
use dashfetchr.App.Custodyapp.{RecordInput, Fresh, record_custody, event_of}
use dashfetchr.App.Custodyapp.Unused.{custody_after}
use dashfetchr.App.Custodyapp.Effects.{IsUnused}
use dashfetchr.App.Webhook.{
  on_rider_assigned, dispatch_event, handle_domain_event, with_rider, assigned_input,
}

pub new-IsIntact : (d : Digest) → IsIntact d events_of new_store.custody
unfolding events_of lookup
new-IsIntact d id = tt

-- `Record` keeps the chains intact.
pub record_custody-IsIntact :
    (d : Digest) (f : Fresh) (s : Store)
    → IsUnused f.event_id s.custody
    → IsIntact d events_of s.custody
    → (i : RecordInput) → IsIntact d events_of (record_custody d f i s).0.custody
record_custody-IsIntact d f s fresh v i = elim (custody_after d f i s) [
  | inl h ↦ rw h v
  | inr h ↦ rw h (
      record_event-IsIntact custody_repository d events_of custody_repository-IsRepository
        f.event_id (event_of f i) s.custody fresh v)
]

module _ (d : Digest) (f : Fresh) (s : Store) (fresh : IsUnused f.event_id s.custody)
    (v : IsIntact d events_of s.custody) where
  on_rider_assigned-IsIntact :
      (del : Delivery) (carrier_id : String) (r : Events.Rider)
      → IsIntact d events_of (on_rider_assigned d f del carrier_id r s).0.custody
  unfolding on_rider_assigned
  on_rider_assigned-IsIntact del carrier_id r = elim (Bool-cases (str_eq r.id "")) [
    | inl t ↦ rw t (record_custody-IsIntact d f s fresh v (assigned_input del.id carrier_id r))
    | inr n ↦ rw n (
        record_custody-IsIntact d f
          (record s { deliveries = save (with_rider f r del) s.deliveries }) fresh v
          (assigned_input del.id carrier_id r))
  ]

  dispatch_event-IsIntact :
      (del : Delivery) (carrier_id : String) (ev : Events.DomainEvent)
      → IsIntact d events_of (dispatch_event d f del carrier_id ev s).0.custody
  unfolding dispatch_event
  dispatch_event-IsIntact del carrier_id (Events.rider_assigned b r) =
      on_rider_assigned-IsIntact del carrier_id r
  dispatch_event-IsIntact del carrier_id (Events.rider_arrived_at_pickup b loc photo) =
      record_custody-IsIntact d f s fresh v _
  dispatch_event-IsIntact del carrier_id (Events.package_picked_up b loc photo) =
      record_custody-IsIntact d f s fresh v _
  dispatch_event-IsIntact del carrier_id (Events.rider_in_transit b loc) = v
  dispatch_event-IsIntact del carrier_id (Events.rider_arrived_at_destination b loc) = v
  dispatch_event-IsIntact del carrier_id (Events.package_delivered b loc photo signature) =
      record_custody-IsIntact d f s fresh v _
  dispatch_event-IsIntact del carrier_id (Events.delivery_failed b reason loc photo) =
      record_custody-IsIntact d f s fresh v _
  dispatch_event-IsIntact del carrier_id (Events.shipment_cancelled b reason) = v
  dispatch_event-IsIntact del carrier_id (Events.package_returned_to_locker b loc photo k) = v

  -- One event of a webhook keeps the chains intact.
  pub handle_domain_event-IsIntact :
      (order : Map Uuid Delivery → Map Uuid Delivery) (carrier_id : String)
      (ev : Events.DomainEvent)
      → IsIntact d events_of (handle_domain_event d order f carrier_id ev s).0.custody
  unfolding handle_domain_event
  handle_domain_event-IsIntact order carrier_id ev =
      let x = Events.external_id ev in
      elim (Bool-cases (str_eq x "")) [
        | inl t ↦ rw t v
        | inr n ↦
            rw n (elim (Result-cases (get_by_carrier_external_id order carrier_id x s.deliveries)) [
              | inl (del, g) ↦ rw g (dispatch_event-IsIntact del carrier_id ev)
              | inr (y, g) ↦
                  rw g (elim (Bool-cases (is_not_found y)) [ inl t ↦ rw t v | inr n ↦ rw n v ])
            ])
      ]
