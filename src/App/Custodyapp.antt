-- ===== src/App/Custodyapp.antt =====
-- internal/app/custodyapp/service.go: a custody event is recorded, and drives the delivery's state. The
-- clock is read for the event, for the mark and for the stamp; the identifier is an argument. A call is one
-- step: what comes between its calls of the stores is left out.
pub mod Effects
pub mod Unused
use dashfetchr.Base.{◌≡◌, refl, ◌⊎◌, inl, inr, Option, none, some, String, List, Bytes, codes, []}
use dashfetchr.Base.Int64.{pos}
use dashfetchr.Base.Time.{Time, utc}
use dashfetchr.Base.Uuid.{Uuid, uuid_nil}
use dashfetchr.Core.Errors.{Error, Result, ok, err}
use dashfetchr.Core.Delivery.States.{assigned, en_route_pickup, in_transit, en_route_drop}
use dashfetchr.Core.Delivery.{Delivery, transition, mark_picked_up, mark_delivered, mark_failed}
use dashfetchr.Core.Custody.{
  EventType, Actor, GeoPoint, PhotoRef, Event, rider_assigned, rider_arrived_at_locker,
  package_picked_up, rider_in_transit, rider_arrived_at_destination, package_delivered,
  delivery_failed,
}
use dashfetchr.Core.Custody.Hashing.{Digest}
use dashfetchr.Core.Custody.Ledger.{record_event, list, verify}
use dashfetchr.Infra.Memory.CustodyRepo.{CustodyRepo, custody_repository}
use dashfetchr.Infra.Memory.DeliveryRepo.{get_by_id, save}
use dashfetchr.App.Store.{Store}

pub record RecordInput : Type 0 where
  pub delivery_id : Uuid
  pub type : EventType
  pub actor : Actor
  pub location : Option GeoPoint
  pub photos : List PhotoRef
  pub reason : String

-- What one call takes from outside: `uuid.New()`, and the three readings of the clock.
pub record Fresh : Type 0 where
  pub event_id : Uuid
  pub occurred : Time
  pub at : Time
  pub now : Time

unfoldable pub apply_delivery_transition :
    EventType → (at now : Time) → Delivery → Delivery × Option Error
apply_delivery_transition rider_assigned at now d = transition assigned "" now d
apply_delivery_transition rider_arrived_at_locker at now d = transition en_route_pickup "" now d
apply_delivery_transition package_picked_up at now d = mark_picked_up (utc at) now d
apply_delivery_transition rider_in_transit at now d = transition in_transit "" now d
apply_delivery_transition rider_arrived_at_destination at now d = transition en_route_drop "" now d
apply_delivery_transition package_delivered at now d = mark_delivered (utc at) now d
apply_delivery_transition delivery_failed at now d = mark_failed "custody_event" now d
apply_delivery_transition _ at now d = (d, none)

-- The event that is handed to the ledger; the ledger sets the fields of the chain.
abbrev pub event_of : Fresh → RecordInput → Event
event_of f i = record {
  event_id = uuid_nil;
  delivery_id = i.delivery_id;
  sequence_num = pos 0;
  type = i.type;
  occurred_at = utc f.occurred;
  carrier_time = none;
  actor = i.actor;
  location = i.location;
  photos = i.photos;
  signature = none;
  reason = i.reason;
  metadata = [];
  prev_hash = [];
  hash = [];
}

-- What `Record` returns: the zero event and an error, or the recorded event, perhaps with one.
pub data Outcome : Type 0 where
  refused : Error → Outcome
  recorded : Event → Option Error → Outcome

pub Outcome-cases :
    (o : Outcome)
    → ((x : Error) × (o ≡ refused x))
      ⊎ ((e : Event) × ((o ≡ recorded e none) ⊎ ((x : Error) × (o ≡ recorded e (some x)))))
Outcome-cases (refused x) = inl (x, refl)
Outcome-cases (recorded e none) = inr (e, inl refl)
Outcome-cases (recorded e (some x)) = inr (e, inr (x, refl))

module _ (d : Digest) where
  -- From the transition on; the delivery is saved only if the transition was allowed.
  finish : Event → Store → Delivery × Option Error → Store × Outcome
  finish e s (del, some x) = (s, recorded e (some x))
  finish e s (del, none) = (record s { deliveries = save del s.deliveries }, recorded e none)

  after_ledger :
      Fresh → RecordInput → Delivery → Store → CustodyRepo × Result Event → Store × Outcome
  unfolding finish
  after_ledger f i del s (custody, err x) = (record s { custody = custody }, refused x)
  after_ledger f i del s (custody, ok e) =
      finish e (record s { custody = custody }) (apply_delivery_transition i.type f.at f.now del)

  record_for : Fresh → RecordInput → Store → Result Delivery → Store × Outcome
  unfolding after_ledger
  record_for f i s (err x) = (s, refused x)
  record_for f i s (ok del) =
      after_ledger f i del s (record_event custody_repository d f.event_id (event_of f i) s.custody)

  -- Service.Record
  unfoldable pub record_custody : Fresh → RecordInput → Store → Store × Outcome
  unfolding record_for
  record_custody f i s = record_for f i s (get_by_id i.delivery_id s.deliveries)

  -- Service.ListEvents
  unfoldable pub list_events : Uuid → Store → Result (List Event)
  list_events id s = list custody_repository d id s.custody

  -- Service.VerifyChain
  unfoldable pub verify_chain : Uuid → Store → Option Error
  verify_chain id s = verify custody_repository d id s.custody
