-- ===== src/App/Fulfilment.antt =====
-- About a rider's custody events after a booking (internal/app/custodyapp/service.go and internal/app/booking).
use dashfetchr.Base.{
  String, subst, get_last?, ◌==◌, ==_iff, All, true, false, Option, none, some, Bytes, List, [],
  ◌∷◌, ◌≡◌, refl, sym, ap, ◌∙◌, inl, inr, arith,
}
use dashfetchr.Base.Time.{Time}
use dashfetchr.Base.Uuid.{Uuid}
use dashfetchr.Core.Errors.{ok, Result-cases}
use dashfetchr.Core.Delivery.States.{
  pending, State, allowed_transitions, assigned, en_route_pickup, picked_up, in_transit,
  en_route_drop, delivered, failed,
}
use dashfetchr.Core.Delivery.{
  Delivery, transition, mark_picked_up, mark_delivered, mark_failed, can_transition_to,
}
use dashfetchr.Core.Custody.{
  EventType, Event, validate, rider_assigned, rider_arrived_at_locker, package_picked_up,
  rider_in_transit, rider_arrived_at_destination, package_delivered, delivery_failed,
}
use dashfetchr.Core.Custody.Hashing.{Digest, payload, compute_hash}
use dashfetchr.Core.Custody.Ledger.{link, record_event}
use dashfetchr.Infra.Memory.CustodyRepo.{
  events_of, CustodyRepo, custody_repository, last_by_delivery, append,
}
use dashfetchr.Infra.Memory.DeliveryRepo.{get_by_id}
use dashfetchr.Infra.Memory.DeliveryRepo.Lookups.{get_by_id-save}
use dashfetchr.App.Store.{Store}
use dashfetchr.App.Booking.{CreateBookingInput, CreateBookingResult, Draw, Quote, create_booking}
use dashfetchr.App.Booking.Results.{delivery_fields, create_booking_parts}
use dashfetchr.App.Journeys.{create_booking_custody}
use dashfetchr.App.Custodyapp.{
  Outcome, RecordInput, Fresh, event_of, apply_delivery_transition, record_custody,
}
use dashfetchr.App.Custodyapp.Effects.{run_ok, IsUnused}
use dashfetchr.App.Custodyapp.Unused.{record_custody-IsUnused}

-- The state that an event asks for.
abbrev pub target : EventType → Option State
target rider_assigned = some assigned
target rider_arrived_at_locker = some en_route_pickup
target package_picked_up = some picked_up
target rider_in_transit = some in_transit
target rider_arrived_at_destination = some en_route_drop
target package_delivered = some delivered
target delivery_failed = some failed
target _ = none

apply_moves :
    (t : EventType) (at now : Time) (del : Delivery) {q : State}
    → target t ≡ some q
    → allowed_transitions del.state q ≡ true
    → ((apply_delivery_transition t at now del).1 ≡ none)
      × ((apply_delivery_transition t at now del).0.state ≡ q)
      × ((apply_delivery_transition t at now del).0.id ≡ del.id)
unfolding apply_delivery_transition mark_picked_up mark_delivered mark_failed transition
    can_transition_to
apply_moves t at now del h a = (ground arith, ground arith, ground arith)

module _ (d : Digest) where
  -- The marshaller encodes the event of this record: its number and its link are no part of what is marshalled.
  abbrev pub IsEncoded : Fresh → RecordInput → Type 0
  IsEncoded f i =
      (b : Bytes) × (d.marshal (payload (record (event_of f i) { event_id = f.event_id })) ≡ ok b)

  payload-link :
      (event_id : Uuid) (e : Event) (prev : Option Event)
      → payload (link d event_id e prev) ≡ payload (record e { event_id = event_id })
  unfolding payload link
  payload-link event_id e none = refl
  payload-link event_id e (some p) = refl

  ledger_ok :
      (f : Fresh) (i : RecordInput) (c : CustodyRepo)
      → validate (event_of f i) ≡ none
      → IsEncoded f i
      → (e : Event) × ((record_event custody_repository d f.event_id (event_of f i) c).1 ≡ ok e)
  unfolding record_event compute_hash append last_by_delivery
  ledger_ok f i c v (b, m) =
      elim (Result-cases (record_event custody_repository d f.event_id (event_of f i) c).1) [
        | inl (e, l) ↦ (e, l)
        | inr (x, l) ↦
            let same =
              payload-link f.event_id (event_of f i) (get_last? (events_of c i.delivery_id)) in
            absurd (ground arith)
      ]

  -- The stores after these records, one after another.
  unfoldable pub run_all : List (Fresh × RecordInput) → Store → Store
  run_all [] s = s
  run_all ((f, i) ∷ plan) s = run_all plan (record_custody d f i s).0

  -- Records for this delivery, under identifiers that differ, each accepted by the policy and encoded, whose events
  -- lead from one state to another by allowed transitions.
  abbrev pub IsPlan : Uuid → State → List (Fresh × RecordInput) → State → Type 0
  IsPlan id p [] q = p ≡ q
  IsPlan id p ((f, i) ∷ plan) q =
      (i.delivery_id ≡ id)
      × (validate (event_of f i) ≡ none)
      × IsEncoded f i
      × All (λ y. (f.event_id == y.0.event_id) ≡ false) plan
      × ((r : State) × (target i.type ≡ some r)
          × (allowed_transitions p r ≡ true)
          × IsPlan id r plan q)

  -- No stored event has an identifier of the plan.
  abbrev pub IsNew : List (Fresh × RecordInput) → CustodyRepo → Type 0
  IsNew plan c = All (λ y. IsUnused y.0.event_id c) plan

  IsNew-record_custody :
      (f : Fresh) (i : RecordInput) (s : Store)
      → IsUnused f.event_id s.custody
      → (plan : List (Fresh × RecordInput)) → All (λ y. (f.event_id == y.0.event_id) ≡ false) plan
      → IsNew plan s.custody
      → IsNew plan (record_custody d f i s).0.custody
  IsNew-record_custody f i s fresh [] differ unused = tt
  IsNew-record_custody f i s fresh ((g, j) ∷ plan) differ unused = (
    record_custody-IsUnused d f i s fresh g.event_id differ.0 unused.0,
    IsNew-record_custody f i s fresh plan differ.1 unused.1,
  )

  -- A step of a plan: the record succeeds, and the delivery is in the state that its event asks for.
  step :
      (f : Fresh) (i : RecordInput) (s : Store) (del : Delivery) {r : State}
      → IsUnused f.event_id s.custody
      → validate (event_of f i) ≡ none
      → IsEncoded f i
      → target i.type ≡ some r
      → allowed_transitions del.state r ≡ true
      → get_by_id i.delivery_id s.deliveries ≡ ok del
      → del.id ≡ i.delivery_id
      → (k : Delivery) × (get_by_id i.delivery_id (record_custody d f i s).0.deliveries ≡ ok k)
        × (k.state ≡ r)
        × (k.id ≡ i.delivery_id)
  step f i s del fresh v enc t a g own =
      let (e, l) = ledger_ok f i s.custody v enc in
      let (m, state, id) = apply_moves i.type f.at f.now del t a in
      let k = (apply_delivery_transition i.type f.at f.now del).0 in
      let run = run_ok d f i s fresh del g l m in
      (
        k,
        ap (λ (p : Store × Outcome). get_by_id i.delivery_id p.0.deliveries) run
            ∙ get_by_id-save k i.delivery_id s.deliveries
            ∙ (rw ((==_iff k.id i.delivery_id).1 (id ∙ own))),
        state,
        id ∙ own,
      )

  -- The records of a plan all take effect: they leave the delivery in the state to which the plan leads.
  pub run_all_lem :
      (plan : List (Fresh × RecordInput)) (s : Store) (del : Delivery) (id : Uuid) {q : State}
      → get_by_id id s.deliveries ≡ ok del
      → del.id ≡ id
      → IsNew plan s.custody
      → IsPlan id del.state plan q
      → (k : Delivery) × (get_by_id id (run_all plan s).deliveries ≡ ok k) × (k.state ≡ q)
  unfolding run_all
  run_all_lem [] s del id g own fresh h = (del, g, h)
  run_all_lem ((f, i) ∷ plan) s del id {q} g own fresh (named, v, enc, differ, (r, t, a, rest)) =
      let (k, found, state, kept) =
        step f i s del fresh.0 v enc t a (ap (λ x. get_by_id x s.deliveries) named ∙ g)
          (own ∙ sym named) in
      run_all_lem plan (record_custody d f i s).0 k id
        (ap (λ x. get_by_id x (record_custody d f i s).0.deliveries) (sym named) ∙ found)
        (kept ∙ named) (IsNew-record_custody f i s fresh.0 plan differ fresh.1)
        (subst (λ x. IsPlan id x plan q) (sym state) rest)

  -- After a booking that succeeds, a plan of custody events for its delivery leads to where it says: to delivered,
  -- if it ends there. A plan has its own identifiers, which no stored event has; each of its events is
  -- accepted by the policy and encoded by the marshaller; and the transitions that they ask for, from
  -- pending on, are allowed.
  pub run_all-create_booking :
      (quote : CreateBookingInput → Quote) (uuid_string : Uuid → String) (w : Draw)
      (i : CreateBookingInput) (s : Store) {out : CreateBookingResult}
      (plan : List (Fresh × RecordInput)) {q : State}
      → (create_booking quote uuid_string w i s).1 ≡ ok out
      → IsNew plan s.custody
      → IsPlan out.delivery_id pending plan q
      → (k : Delivery) × (get_by_id out.delivery_id
            (run_all plan (create_booking quote uuid_string w i s).0).deliveries
          ≡ ok k)
        × (k.state ≡ q)
  run_all-create_booking quote uuid_string w i s {out} plan {q} h fresh leads =
      let (a, del, pa, pd, own, eq) = create_booking_parts quote uuid_string w i s h in
      let (state, parcel, id, start, end, price, aboard) =
        delivery_fields quote uuid_string w i a pd in
      let stored =
        get_by_id-save del out.delivery_id s.deliveries
        ∙ (rw ((==_iff del.id out.delivery_id).1 (sym own))) in
      run_all_lem plan (create_booking quote uuid_string w i s).0 del out.delivery_id
        (ap (λ (t : Store). get_by_id out.delivery_id t.deliveries) eq ∙ stored) (sym own)
        (subst (IsNew plan) (sym (create_booking_custody quote uuid_string w i s)) fresh)
        (subst (λ x. IsPlan out.delivery_id x plan q) (sym state) leads)
