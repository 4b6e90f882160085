-- ===== src/Examples/Services.antt =====
-- Runs of the services (internal/app): a booking, a dispatch, and a delivery by the rider.
use dashfetchr.Base.{
  ap, ◌<◌, ◌∙◌, ℕ, suc, ◌≤◌, ◌++◌, ◌==◌, true, false, Option, none, some, ◌≡◌, ◌≢◌, ◌↔◌, ◌⊎◌, inl,
  inr, refl, String, List, [], ◌∷◌, arith, length, All, if◌then◌else◌,
}
use dashfetchr.Base.Int64.{pos}
use dashfetchr.Core.Custody.Recording.{has_event}
use dashfetchr.Core.Custody.Ledger.{record_event}
use dashfetchr.Core.Custody.Hashing.{compute_hash}
use dashfetchr.Infra.Memory.DeliveryRepo.Lookups.{get_by_id-save}
use dashfetchr.Base.Uuid.{Uuid}
use dashfetchr.Base.Float64.{whole}
use dashfetchr.Base.Maps.{Map, IsOrder, lookup, nat_eq}
use dashfetchr.Core.Errors.{Result-cases, Error, ok}
use dashfetchr.Core.Delivery.{Delivery}
use dashfetchr.Core.Awb.{Awb}
use dashfetchr.Core.Custody.{
  validate, Event, EventType, rider_assigned, rider_arrived_at_locker, package_picked_up,
  rider_in_transit, package_delivered,
}
use dashfetchr.Infra.Memory.CustodyRepo.{
  custody_repository, CustodyRepo, last_by_delivery, append, events_of,
}
use dashfetchr.Infra.Memory.DeliveryRepo.{save, get_by_id}
use dashfetchr.App.Store.{Store, new_store}
use dashfetchr.App.Booking.{
  CreateBookingInput, CreateBookingResult, Draw, Quote, create_booking, get_booking,
}
use dashfetchr.App.Custodyapp.{
  Outcome, apply_delivery_transition, event_of, RecordInput, Fresh, record_custody, recorded,
}
use dashfetchr.App.Custodyapp.Unused.{record_custody-IsUnused}
use dashfetchr.App.Custodyapp.Effects.{run_ok, IsUnused}
use dashfetchr.App.Journeys.{
  create_booking_custody, create_booking_custody, IsReachable, starts, goes_on, books, records,
}
use dashfetchr.Examples.Fixtures.{
  waiting, noon, evening, night, seed, tally, courier, here, picture,
}

abbrev pub order_form : CreateBookingInput
order_form = record {
  retailer_id = 3;
  external_awb = "S-1";
  external_carrier = "sameday";
  customer_phone = "07";
  customer_name = "Ion";
  pickup_locker_id = "L7";
  pickup_lat = whole 44;
  pickup_lng = whole 26;
  pickup_address = "Locker 7";
  drop_lat = whole 45;
  drop_lng = whole 26;
  drop_address = "Strada Lunga 1";
  drop_floor = "2";
  drop_apartment = "9";
  drop_instructions = "";
  weight_kg = whole 2;
  slot_start = evening;
  slot_end = night;
  last_mile_carrier = "";
}

abbrev pub draw : Draw
draw = record {
  awb_id = 5;
  delivery_id = 7;
  entropy = ok seed;
  created_at = noon;
  attached_at = noon;
  moved_at = noon;
  leg_at = noon;
  checked_at = noon;
  scheduled_at = noon;
}

abbrev pub price : CreateBookingInput → Quote
price i = record { total_minor = pos 1200; currency = "RON" }

abbrev pub print : Uuid → String
print id = "7"

abbrev pub s1 : Store
s1 = (create_booking price print draw order_form new_store).0

abbrev pub reading : Uuid → Fresh
reading n = record { event_id = n; occurred = evening; at = evening; now = evening }

abbrev pub input : EventType → RecordInput
input t = record {
  delivery_id = 7;
  type = t;
  actor = courier;
  location = some here;
  photos = picture ∷ [];
  reason = "";
}

abbrev pub s2 : Store
s2 = (record_custody tally (reading 101) (input rider_assigned) s1).0

abbrev pub s3 : Store
s3 = (record_custody tally (reading 102) (input rider_arrived_at_locker) s2).0

abbrev pub s4 : Store
s4 = (record_custody tally (reading 103) (input package_picked_up) s3).0

abbrev pub s5 : Store
s5 = (record_custody tally (reading 104) (input rider_in_transit) s4).0

abbrev pub s6 : Store
s6 = (record_custody tally (reading 105) (input package_delivered) s5).0

pub s1-IsUnused : (n : Uuid) → IsUnused n s1.custody
unfolding events_of has_event lookup
s1-IsUnused n = rw (create_booking_custody price print draw order_form new_store) λ id. refl

-- The identifiers from 101 to `k` are used.
abbrev pub IsLater : ℕ → ℕ → Type 0
IsLater k n = k < n

pub s2-IsUnused : (n : Uuid) → IsLater 101 n → IsUnused n s2.custody
s2-IsUnused n h =
    record_custody-IsUnused tally (reading 101) (input rider_assigned) s1 (s1-IsUnused 101) n
      (ground arith) (s1-IsUnused n)

pub s3-IsUnused : (n : Uuid) → IsLater 102 n → IsUnused n s3.custody
s3-IsUnused n h =
    record_custody-IsUnused tally (reading 102) (input rider_arrived_at_locker) s2
      (s2-IsUnused 102 (omega arith)) n (ground arith) (s2-IsUnused n (omega arith))

pub s4-IsUnused : (n : Uuid) → IsLater 103 n → IsUnused n s4.custody
s4-IsUnused n h =
    record_custody-IsUnused tally (reading 103) (input package_picked_up) s3
      (s3-IsUnused 103 (omega arith)) n (ground arith) (s3-IsUnused n (omega arith))

pub s5-IsUnused : (n : Uuid) → IsLater 104 n → IsUnused n s5.custody
s5-IsUnused n h =
    record_custody-IsUnused tally (reading 104) (input rider_in_transit) s4
      (s4-IsUnused 104 (omega arith)) n (ground arith) (s4-IsUnused n (omega arith))

pub s4-IsReachable : IsReachable tally s4
s4-IsReachable =
    goes_on
      (goes_on
        (goes_on (goes_on starts (books price print draw order_form))
          (records (reading 101) (input rider_assigned) (s1-IsUnused 101)))
        (records (reading 102) (input rider_arrived_at_locker) (s2-IsUnused 102 (omega arith))))
      (records (reading 103) (input package_picked_up) (s3-IsUnused 103 (omega arith)))

pub s6-IsReachable : IsReachable tally s6
s6-IsReachable =
    goes_on
      (goes_on s4-IsReachable
        (records (reading 104) (input rider_in_transit) (s4-IsUnused 104 (omega arith))))
      (records (reading 105) (input package_delivered) (s5-IsUnused 105 (omega arith)))

abbrev pub booked_leg : Delivery
booked_leg = record waiting {
  carrier_external_id = "";
  scheduled_window_start = some evening;
  scheduled_window_end = some night;
}

pub s1-found : get_by_id 7 s1.deliveries ≡ ok booked_leg
unfolding get_by_id lookup create_booking dashfetchr.App.Booking.booked
    dashfetchr.Core.Awb.validate_package dashfetchr.Base.Float64.le_f whole
    dashfetchr.Core.Awb.Internal.generate_internal_awb
    dashfetchr.Core.Awb.States.allowed_transitions dashfetchr.Core.Awb.is_attached
    dashfetchr.Infra.Memory.DeliveryRepo.save dashfetchr.Base.Maps.insert
s1-found = refl

pub ledger_records :
    (n : Uuid) (e : Event) (c : CustodyRepo)
    → validate e ≡ none
    → (r : Event) × ((record_event custody_repository tally n e c).1 ≡ ok r)
unfolding record_event validate compute_hash append last_by_delivery
ledger_records n e c h = elim (Result-cases (record_event custody_repository tally n e c).1) [
  | inl (r, l) ↦ (r, l)
  | inr (x, l) ↦ absurd (ground arith)
]

pub goes_to :
    (n : Uuid) (t : EventType) (s : Store) (del k : Delivery)
    → IsUnused n s.custody
    → validate (event_of (reading n) (input t)) ≡ none
    → get_by_id 7 s.deliveries ≡ ok del
    → apply_delivery_transition t evening evening del ≡ (k, none)
    → k.id ≡ 7
    → (e : Event) × ((record_custody tally (reading n) (input t) s).1 ≡ recorded e none)
      × (get_by_id 7 (record_custody tally (reading n) (input t) s).0.deliveries ≡ ok k)
goes_to n t s del k u v g step id =
    let (r, l) = ledger_records n (event_of (reading n) (input t)) s.custody v in
    let run =
      run_ok tally (reading n) (input t) s u del g l
        (ap (λ (p : Delivery × Option Error). p.1) step) in
    let moved = ap (λ (p : Delivery × Option Error). p.0) step in
    (
      r,
      ap (λ (p : Store × Outcome). p.1) run,
      ap (λ (p : Store × Outcome). get_by_id 7 p.0.deliveries) run
          ∙ ap (λ x. get_by_id 7 (save x s.deliveries)) moved
          ∙ get_by_id-save k 7 s.deliveries
          ∙ (rw id),
    )
