-- ===== src/App/Booking/Prices.antt =====
-- The quote of a booking (internal/app/booking/service.go with internal/core/pricing/pricing.go).
use dashfetchr.Base.{ℕ, ◌+◌, ◌<◌, ◌^◌, some, String, ◌≡◌, ◌∙◌}
use dashfetchr.Base.Int64.{ℤ, pos}
use dashfetchr.Base.Float64.{Float64}
use dashfetchr.Base.Uuid.{Uuid}
use dashfetchr.Core.Errors.{ok}
use dashfetchr.Core.Delivery.{Delivery}
use dashfetchr.Core.Awb.{Awb}
use dashfetchr.Core.Pricing as Pricing
use dashfetchr.Core.Pricing.{Maths, default_config, distance_minor}
use dashfetchr.Core.Pricing.Fares.{quote_default, oversize, evening}
use dashfetchr.App.Store.{Store}
use dashfetchr.App.Booking.{
  CreateBookingInput, CreateBookingResult, Draw, Quote, create_booking, get_booking,
}
use dashfetchr.App.Booking.Results.{get_booking-create_booking}

-- pricing.Request{...}: without a code.
unfoldable pub request_of : CreateBookingInput → Pricing.Request
request_of i = record {
  pickup = record { lat = i.pickup_lat; lng = i.pickup_lng };
  drop = record { lat = i.drop_lat; lng = i.drop_lng };
  weight_kg = i.weight_kg;
  slot_start = some i.slot_start;
  discount_code = "";
}

module _ (m : Maths) (wild : Float64 → ℤ) where
  -- The total and the currency of the engine's quote, which is what the service reads of it.
  unfoldable pub quote_of : Pricing.Config → CreateBookingInput → Quote
  unfolding Pricing.quote request_of
  quote_of cfg i =
      let q = Pricing.quote m wild cfg (request_of i) in
      record { total_minor = q.total.minor; currency = q.currency }

  -- With the default prices, and a distance's fare below 2^62: the delivery that GetBooking returns for a
  -- booking that succeeded is quoted at 8 RON, the distance's fare, 3 RON above 5 kg and 2 RON for a slot
  -- that starts from 18 to 22 o'clock.
  pub price-create_booking :
      (uuid_string : Uuid → String) (w : Draw) (i : CreateBookingInput) (s : Store)
      {r : CreateBookingResult} {d : ℕ}
      → distance_minor m wild default_config (request_of i) ≡ pos d
      → d < 2 ^ 62
      → (create_booking (quote_of default_config) uuid_string w i s).1 ≡ ok r
      → (a : Awb) × (del : Delivery) × (get_booking r.delivery_id
            (create_booking (quote_of default_config) uuid_string w i s).0
          ≡ ok (del, a))
        × (del.price_quoted_minor
            ≡ pos (800 + d + oversize i.weight_kg + evening (some i.slot_start)))
  unfolding quote_of request_of
  price-create_booking uuid_string w i s distance small h =
      let (a, del, got, state, from, to, price, at, shop) =
        get_booking-create_booking (quote_of default_config) uuid_string w i s h in
      (a, del, got, price ∙ quote_default m wild (request_of i) distance small)
