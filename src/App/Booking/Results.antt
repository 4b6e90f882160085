-- ===== src/App/Booking/Results.antt =====
-- What a booking leaves in the stores (internal/app/booking/service.go).
use dashfetchr.Base.{none, some, ◌≡◌, refl, ap, ◌∙◌, String, arith, ==_iff, inl, inr}
use dashfetchr.Base.Uuid.{Uuid}
use dashfetchr.Core.Errors.{Error, ok, err, Result-cases}
use dashfetchr.Core.Delivery.States.{pending}
use dashfetchr.Core.Awb.States.{at_locker}
use dashfetchr.Core.Delivery.{Delivery}
use dashfetchr.Core.Awb.{Awb}
use dashfetchr.Infra.Memory.AwbRepo as AwbRepo
use dashfetchr.Infra.Memory.DeliveryRepo as DeliveryRepo
use dashfetchr.Infra.Memory.DeliveryRepo.Lookups.{get_by_id-save}
use dashfetchr.App.Store.{Store}
use dashfetchr.App.Booking.{
  CreateBookingInput, CreateBookingResult, Draw, Quote, booked, booked_delivery, booked_awb,
  create_booking, get_booking,
}

module _ (quote : CreateBookingInput → Quote) (uuid_string : Uuid → String) (w : Draw)
    (i : CreateBookingInput) where
  pub delivery_fields :
      (a : Awb) {del : Delivery}
      → booked_delivery quote uuid_string w i a ≡ ok del
      → (del.state ≡ pending)
        × (del.awb_id ≡ a.id)
        × (del.id ≡ w.delivery_id)
        × (del.scheduled_window_start ≡ some i.slot_start)
        × (del.scheduled_window_end ≡ some i.slot_end)
        × (del.price_quoted_minor ≡ (quote i).total_minor)
        × (del.actual_pickup_at ≡ none)
  unfolding booked_delivery
  delivery_fields a h = ground arith

  awb_fields :
      {a : Awb}
      → booked_awb w i ≡ ok a
      → (a.state ≡ at_locker) × (a.id ≡ w.awb_id) × (a.retailer_id ≡ i.retailer_id)
  unfolding booked_awb
  awb_fields h = ground arith

  booked_parts :
      {a : Awb} {del : Delivery}
      → booked quote uuid_string w i ≡ ok (a, del)
      → (booked_awb w i ≡ ok a) × (booked_delivery quote uuid_string w i a ≡ ok del)
  unfolding booked
  booked_parts h = elim (Result-cases (booked_awb w i)) [
    | inr (x, p) ↦ absurd (ground arith)
    | inl (b, p) ↦ elim (Result-cases (booked_delivery quote uuid_string w i b)) [
      | inr (x, q) ↦ absurd (ground arith)
      | inl (k, q) ↦ (ground arith, ground arith)
    ]
  ]

  -- The parcel and the delivery of a booking that succeeds.
  pub create_booking_parts :
      (s : Store) {r : CreateBookingResult}
      → (create_booking quote uuid_string w i s).1 ≡ ok r
      → (a : Awb) × (del : Delivery) × (booked_awb w i ≡ ok a)
        × (booked_delivery quote uuid_string w i a ≡ ok del)
        × (r.delivery_id ≡ del.id)
        × ((create_booking quote uuid_string w i s).0 ≡ record s {
          awbs = AwbRepo.save a s.awbs;
          deliveries = DeliveryRepo.save del s.deliveries;
        })
  unfolding create_booking
  create_booking_parts s h = elim (Result-cases (booked quote uuid_string w i)) [
    | inr (x, p) ↦ absurd (ground arith)
    | inl ((a, del), p) ↦
        let (pa, pd) = booked_parts p in (a, del, pa, pd, ground arith, ground arith)
  ]

  -- A booking that succeeds is what `GetBooking` then returns for its delivery: a pending delivery on
  -- the slot that was asked for, at the price that was quoted, of a parcel of the retailer's at the
  -- locker.
  pub get_booking-create_booking :
      (s : Store) {r : CreateBookingResult}
      → (create_booking quote uuid_string w i s).1 ≡ ok r
      → (a : Awb) × (del : Delivery) × (get_booking r.delivery_id
            (create_booking quote uuid_string w i s).0
          ≡ ok (del, a))
        × (del.state ≡ pending)
        × (del.scheduled_window_start ≡ some i.slot_start)
        × (del.scheduled_window_end ≡ some i.slot_end)
        × (del.price_quoted_minor ≡ (quote i).total_minor)
        × (a.state ≡ at_locker)
        × (a.retailer_id ≡ i.retailer_id)
  unfolding get_booking
  get_booking-create_booking s {r} h =
      let (a, del, pa, pd, own, eq) = create_booking_parts s h in
      let (state, parcel, id, start, end, price, fresh) = delivery_fields a pd in
      let (at, aid, shop) = awb_fields pa in
      let dels = (create_booking quote uuid_string w i s).0.deliveries in
      let got : DeliveryRepo.get_by_id r.delivery_id dels ≡ ok del =
        rw eq (
          rw own (get_by_id-save del del.id s.deliveries ∙ (rw ((==_iff del.id del.id).1 refl)))) in
      let parcel_got : AwbRepo.get_by_id del.awb_id (create_booking quote uuid_string w i s).0.awbs
          ≡ ok a =
        ap (λ k. AwbRepo.get_by_id k (create_booking quote uuid_string w i s).0.awbs) parcel
        ∙ ap (λ (t : Store). AwbRepo.get_by_id a.id t.awbs) eq
        ∙ (AwbRepo.get-save a s.awbs).0 in
      (a, del, ground arith, state, start, end, price, at, shop)

  -- A booking that fails leaves the stores as they were.
  pub create_booking_err :
      (s : Store) {x : Error}
      → (create_booking quote uuid_string w i s).1 ≡ err x
      → (create_booking quote uuid_string w i s).0 ≡ s
  unfolding create_booking
  create_booking_err s h = ground arith
