-- ===== src/App/Journeys.antt =====
-- Every state of the stores that the services (internal/app) reach, by any calls in any order, each with any
-- arguments, and with identifiers for the recorded events that no stored event has. A call is one step: it ends
-- before the next begins.
use dashfetchr.Base.{◌≡◌, refl, ap, String, List, arith, none, true, false}
use dashfetchr.Base.Time.{Time}
use dashfetchr.Base.Uuid.{Uuid}
use dashfetchr.Base.Maps.{Map, IsOrder}
use dashfetchr.Core.Errors.{ok}
use dashfetchr.Core.Delivery.States.{delivered}
use dashfetchr.Core.Delivery.Histories.{is_aboard}
use dashfetchr.Core.Delivery.{Delivery}
use dashfetchr.Core.Custody.{Event, is_none}
use dashfetchr.Core.Custody.Hashing.{Digest, genesis_hash}
use dashfetchr.Core.Custody.Ledger.{verify, list}
use dashfetchr.Core.Custody.Chain.{verify_from_iff}
use dashfetchr.Core.Custody.Recording.{IsIntact}
use dashfetchr.Infra.Memory.CustodyRepo.{events_of, list_by_delivery}
use dashfetchr.Infra.Memory.DeliveryRepo.{get_by_id}
use dashfetchr.Ports.Carrier.{Carrier}
use dashfetchr.Ports.Events as Events
use dashfetchr.Routing.Strategy.{Strategy}
use dashfetchr.App.Store.{Store, new_store}
use dashfetchr.App.Booking.{CreateBookingInput, Quote, Draw, create_booking}
use dashfetchr.App.Dispatch.{dispatch_delivery}
use dashfetchr.App.Custodyapp.{RecordInput, Fresh, record_custody, verify_chain, list_events}
use dashfetchr.App.Custodyapp.Effects.{IsUnused}
use dashfetchr.App.Webhook.{handle_domain_event}
use dashfetchr.App.Evidence.{has_proof, is_pickup, is_drop, is_delivered}
use dashfetchr.App.Evidence.Stores.{IsCovered, new-IsCovered, record_custody-IsCovered, found}
use dashfetchr.App.Evidence.Webhooks.{handle_domain_event-IsCovered}
use dashfetchr.App.Evidence.Bookings.{create_booking-IsCovered, dispatch_delivery-IsCovered}
use dashfetchr.App.Chains.{new-IsIntact, record_custody-IsIntact, handle_domain_event-IsIntact}

pub data Operation (d : Digest) (s : Store) : Store → Type 0 where
  books :
      (quote : CreateBookingInput → Quote) (uuid_string : Uuid → String) (w : Draw)
      (i : CreateBookingInput)
      → Operation d s (create_booking quote uuid_string w i s).0
  dispatches :
      (strategy : Strategy) (registered : List Carrier) (now later : Time) (id : Uuid)
      → Operation d s (dispatch_delivery strategy registered now later id s).0
  records :
      (f : Fresh) (i : RecordInput)
      → IsUnused f.event_id s.custody
      → Operation d s (record_custody d f i s).0
  hears :
      (order : Map Uuid Delivery → Map Uuid Delivery) (f : Fresh) (carrier_id : String)
      (ev : Events.DomainEvent)
      → IsOrder order
      → IsUnused f.event_id s.custody
      → Operation d s (handle_domain_event d order f carrier_id ev s).0

pub data IsReachable (d : Digest) : Store → Type 0 where
  starts : IsReachable d new_store
  goes_on : {s t : Store} → IsReachable d s → Operation d s t → IsReachable d t

pub create_booking_custody :
    (quote : CreateBookingInput → Quote) (uuid_string : Uuid → String) (w : Draw)
    (i : CreateBookingInput) (s : Store)
    → (create_booking quote uuid_string w i s).0.custody ≡ s.custody
unfolding create_booking
create_booking_custody quote uuid_string w i s = ground arith

pub dispatch_delivery_custody :
    (strategy : Strategy) (registered : List Carrier) (now later : Time) (id : Uuid) (s : Store)
    → (dispatch_delivery strategy registered now later id s).0.custody ≡ s.custody
unfolding dispatch_delivery
dispatch_delivery_custody strategy registered now later id s = ground arith

module _ (d : Digest) where
  Operation-IsCovered :
      {s t : Store}
      → Operation d s t
      → IsCovered s.deliveries s.custody
      → IsCovered t.deliveries t.custody
  Operation-IsCovered {s} (books q u w i) v = create_booking-IsCovered q u w i s v
  Operation-IsCovered {s} (dispatches st reg now later id) v =
      dispatch_delivery-IsCovered st reg now later id s v
  Operation-IsCovered {s} (records f i fresh) v = record_custody-IsCovered d f i s fresh v
  Operation-IsCovered {s} (hears order f c ev visits fresh) v =
      handle_domain_event-IsCovered d f s fresh v order visits c ev

  Operation-IsIntact :
      {s t : Store}
      → Operation d s t
      → IsIntact d events_of s.custody
      → IsIntact d events_of t.custody
  Operation-IsIntact {s} (books q u w i) v = rw (create_booking_custody q u w i s) v
  Operation-IsIntact {s} (dispatches st reg now later id) v =
      rw (dispatch_delivery_custody st reg now later id s) v
  Operation-IsIntact {s} (records f i fresh) v = record_custody-IsIntact d f s fresh v i
  Operation-IsIntact {s} (hears order f c ev visits fresh) v =
      handle_domain_event-IsIntact d f s fresh v order c ev

  reachable-IsCovered : {s : Store} → IsReachable d s → IsCovered s.deliveries s.custody
  reachable-IsCovered starts = new-IsCovered
  reachable-IsCovered (goes_on r o) = Operation-IsCovered o (reachable-IsCovered r)

  reachable-IsIntact : {s : Store} → IsReachable d s → IsIntact d events_of s.custody
  reachable-IsIntact starts = new-IsIntact d
  reachable-IsIntact (goes_on r o) = Operation-IsIntact o (reachable-IsIntact r)

  -- Whatever calls of the services came before, one after another, each recording under an identifier that
  -- no stored event has, VerifyChain accepts the ledger of every delivery.
  pub verify_chain_of_reachable :
      {s : Store} (id : Uuid) → IsReachable d s → verify_chain d id s ≡ none
  unfolding verify_chain verify list_by_delivery
  verify_chain_of_reachable {s} id r =
      (verify_from_iff d 0 (genesis_hash d) (events_of s.custody id)).1 (reachable-IsIntact r id)

  -- Whatever calls of the services came before, one after another, each recording under an identifier that
  -- no stored event has, a delivery that is picked up, in transit, en route to the drop or delivered has in
  -- its ledger a pickup with a photo and a location, and a time of pickup.
  pub pickup_evidence_of_reachable :
      {s : Store} {del : Delivery} (id : Uuid)
      → IsReachable d s
      → get_by_id id s.deliveries ≡ ok del
      → is_aboard del.state ≡ true
      → (es : List Event) × (list_events d id s ≡ ok es)
        × (has_proof is_pickup es ≡ true)
        × (is_none del.actual_pickup_at ≡ false)
  unfolding list_events list list_by_delivery
  pickup_evidence_of_reachable {s} {del} id r g a =
      let v = (reachable-IsCovered r).evidence id del (found id s.deliveries g) in
      (events_of s.custody id, refl, v.pickup a, v.pickup_time a)

  -- Whatever calls of the services came before, one after another, each recording under an identifier that
  -- no stored event has, a delivery that is delivered has in its ledger a delivery with a photo and a
  -- location, and a time of drop.
  pub drop_evidence_of_reachable :
      {s : Store} {del : Delivery} (id : Uuid)
      → IsReachable d s
      → get_by_id id s.deliveries ≡ ok del
      → del.state ≡ delivered
      → (es : List Event) × (list_events d id s ≡ ok es)
        × (has_proof is_drop es ≡ true)
        × (is_none del.actual_drop_at ≡ false)
  unfolding list_events list list_by_delivery
  drop_evidence_of_reachable {s} {del} id r g a =
      let v = (reachable-IsCovered r).evidence id del (found id s.deliveries g) in
      let at : is_delivered del.state ≡ true = ap is_delivered a in
      (events_of s.custody id, refl, v.drop at, v.drop_time at)
