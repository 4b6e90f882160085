-- ===== src/App/Evidence/Bookings.antt =====
-- The evidence of the stored deliveries under bookings and dispatches (internal/app/booking,
-- internal/app/dispatch).
use dashfetchr.Base.{◌≡◌, refl, String, List, arith, inl, inr, Option-cases}
use dashfetchr.Base.Uuid.{Uuid}
use dashfetchr.Base.Time.{Time}
use dashfetchr.Core.Errors.{Result-cases}
use dashfetchr.Core.Delivery.States.{pending, assigned}
use dashfetchr.Core.Delivery.{Delivery}
use dashfetchr.Core.Custody.{Event}
use dashfetchr.Ports.Carrier.{Carrier}
use dashfetchr.Routing.Strategy.{Strategy}
use dashfetchr.Infra.Memory.CustodyRepo.{events_of}
use dashfetchr.App.Store.{Store}
use dashfetchr.App.Booking.{CreateBookingInput, Quote, Draw, create_booking}
use dashfetchr.App.Booking.Results.{create_booking_parts, create_booking_err, delivery_fields}
use dashfetchr.App.Dispatch.{dispatch_delivery}
use dashfetchr.App.Dispatch.Results.{
  saved_as, dispatched_parts, assignment_parts, moved, dispatch_delivery_err,
}
use dashfetchr.App.Evidence.{IsEvidenced}
use dashfetchr.App.Evidence.Stores.{IsCovered, save-IsCovered}

-- A delivery that is not yet picked up needs no evidence.
pub pending-IsEvidenced : (k : Delivery) (es : List Event) → k.state ≡ pending → IsEvidenced k es
pending-IsEvidenced k es h = record {
  pickup = λ a. absurd (ground arith);
  pickup_time = λ a. absurd (ground arith);
  drop = λ a. absurd (ground arith);
  drop_time = λ a. absurd (ground arith);
}

assigned-IsEvidenced : (k : Delivery) (es : List Event) → k.state ≡ assigned → IsEvidenced k es
assigned-IsEvidenced k es h = record {
  pickup = λ a. absurd (ground arith);
  pickup_time = λ a. absurd (ground arith);
  drop = λ a. absurd (ground arith);
  drop_time = λ a. absurd (ground arith);
}

-- A booking keeps the states covered.
pub create_booking-IsCovered :
    (quote : CreateBookingInput → Quote) (uuid_string : Uuid → String) (w : Draw)
    (i : CreateBookingInput) (s : Store)
    → IsCovered s.deliveries s.custody
    → IsCovered
        (create_booking quote uuid_string w i s).0.deliveries
        (create_booking quote uuid_string w i s).0.custody
create_booking-IsCovered quote uuid_string w i s v =
    elim (Result-cases (create_booking quote uuid_string w i s).1) [
      | inr (x, h) ↦ rw (create_booking_err quote uuid_string w i s h) v
      | inl (r, h) ↦
          let (a, del, pa, pd, own, eq) = create_booking_parts quote uuid_string w i s h in
          let (state, f1, f2, f3, f4, f5, f6) = delivery_fields quote uuid_string w i a pd in
          rw eq (
            save-IsCovered del del.id s.deliveries s.custody refl
              (pending-IsEvidenced del (events_of s.custody del.id) state) v)
    ]

-- A dispatch keeps the states covered.
pub dispatch_delivery-IsCovered :
    (strategy : Strategy) (registered : List Carrier) (now later : Time) (id : Uuid) (s : Store)
    → IsCovered s.deliveries s.custody
    → IsCovered
        (dispatch_delivery strategy registered now later id s).0.deliveries
        (dispatch_delivery strategy registered now later id s).0.custody
dispatch_delivery-IsCovered strategy registered now later id s v =
    elim (Option-cases (dispatch_delivery strategy registered now later id s).1) [
      | inr (x, h) ↦ rw (dispatch_delivery_err strategy registered now later id s h) v
      | inl h ↦
          let (k, p, eq) = saved_as strategy registered now later id s h in
          let (del, a, g, st, ga, pa) = dispatched_parts strategy registered now later id s p in
          let (dec, resp, pd, pc, pt) = assignment_parts strategy registered now later a del pa in
          let (kid, kst, kc, kx, kw) = moved strategy registered now later dec.chosen resp del pt in
          rw eq (
            save-IsCovered k k.id s.deliveries s.custody refl
              (assigned-IsEvidenced k (events_of s.custody k.id) kst) v)
    ]
