-- ===== src/Examples/Fares.antt =====
-- Runs of the prices (internal/core/pricing with internal/app/booking) and of the weighted strategy.
use dashfetchr.Base.{
  ℕ, ◌+◌, ◌<◌, ◌^◌, true, false, none, some, ◌⊎◌, ◌≡◌, refl, arith, String, List, [], ◌∷◌,
}
use mathlib.Core.List.{Memᴰ}
use dashfetchr.Base.Int64.{pos}
use dashfetchr.Base.Float64.{whole, half, lt_f}
use dashfetchr.Core.Errors.{ok, err, external, no_available_candidate}
use dashfetchr.Core.Delivery.{Delivery}
use dashfetchr.Core.Awb.{Awb}
use dashfetchr.Core.Pricing.{default_config, distance_minor}
use dashfetchr.Core.Pricing.Fares as Fares
use dashfetchr.Ports.Carrier.{ShipmentRequest}
use dashfetchr.Routing.Strategy.{Candidate, Selection}
use dashfetchr.Routing.Weighted.{WeightedScoreStrategy, filter_available, select_weighted}
use dashfetchr.Routing.Weighted.Best.{score_in, select_weighted_lem}
use dashfetchr.App.Store.{new_store}
use dashfetchr.App.Booking.{CreateBookingResult, create_booking, get_booking}
use dashfetchr.App.Booking.Prices.{request_of, quote_of, price-create_booking}
use dashfetchr.App.Dispatch.{build_shipment_request}
use dashfetchr.Examples.Fixtures.{waiting, parcel, evening, dear, cheap, silent, estimate_of}
use dashfetchr.Examples.Services.{draw, order_form, print}
use dashfetchr.Examples.Desk as Desk
use dashfetchr.Examples.Api.{flat, wild}

fare : distance_minor flat wild default_config (request_of order_form) ≡ pos 1274200
unfolding distance_minor whole half dashfetchr.Routing.Strategy.float_of_int default_config
fare = refl

abbrev priced : CreateBookingResult
priced = record Desk.ticket { quoted_price_minor = pos 1275000 }

booked :
    (create_booking (quote_of flat wild default_config) print draw order_form new_store).1
    ≡ ok priced
unfolding create_booking dashfetchr.App.Booking.booked dashfetchr.Core.Awb.validate_package
    dashfetchr.Base.Float64.le_f whole dashfetchr.Core.Awb.Internal.generate_internal_awb
    dashfetchr.Core.Awb.States.allowed_transitions dashfetchr.Core.Awb.is_attached quote_of
    default_config distance_minor half dashfetchr.Routing.Strategy.float_of_int
    dashfetchr.Core.Pricing.size_minor dashfetchr.Core.Pricing.slot_minor dashfetchr.Base.Time.hour
booked = refl

price-create_booking_example :
    (a : Awb) × (del : Delivery) × (get_booking 7
        (create_booking (quote_of flat wild default_config) print draw order_form new_store).0
      ≡ ok (del, a))
    × (del.price_quoted_minor
        ≡ pos (800 + 1274200 + Fares.oversize (whole 2) + Fares.evening (some evening)))
price-create_booking_example =
    price-create_booking flat wild print draw order_form new_store fare (omega arith) booked

abbrev weights : WeightedScoreStrategy
weights = record { cost_weight = half; eta_weight = half; confidence_weight = half }

abbrev request : ShipmentRequest
request = build_shipment_request parcel waiting

abbrev candidates : List Candidate
candidates =
    record { carrier = dear; estimate = estimate_of 900; available = true; error = none }
    ∷ record { carrier = cheap; estimate = estimate_of 500; available = true; error = none }
    ∷ record {
      carrier = silent;
      estimate = estimate_of 0;
      available = false;
      error = some (external "timeout");
    }
    ∷ []

select_weighted_lem_example :
    ((select_weighted weights request candidates ≡ err no_available_candidate)
      × ((c : Candidate) → Memᴰ c candidates → c.available ≡ false))
    ⊎ ((sel : Selection) × (b : Candidate) × (select_weighted weights request candidates ≡ ok sel)
        × Memᴰ b candidates
        × (b.available ≡ true)
        × (sel.carrier ≡ b.carrier)
        × (sel.score ≡ score_in weights (filter_available candidates) b)
        × ((c : Candidate)
            → Memᴰ c candidates
            → c.available ≡ true
            → lt_f sel.score (score_in weights (filter_available candidates) c) ≡ false))
select_weighted_lem_example = select_weighted_lem weights request candidates
