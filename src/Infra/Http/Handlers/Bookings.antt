-- ===== src/Infra/Http/Handlers/Bookings.antt =====
-- internal/infra/http/handlers/bookings.go: a retailer books, reads and dispatches. What decodes a body and
-- parses times and identifiers is a parameter; so are a quote, how an identifier is printed, and the
-- digest of the ledger.
use dashfetchr.Base.{◌==◌, not, Option, none, some, String, Bytes, List, [], if◌then◌else◌}
use dashfetchr.Base.Float64.{Float64}
use dashfetchr.Base.Time.{Time}
use dashfetchr.Base.Uuid.{Uuid}
use dashfetchr.Core.Errors.{Error, Result, ok, err, ◌>>=◌}
use dashfetchr.Core.Retailer.{Retailer}
use dashfetchr.Core.Delivery.{Delivery}
use dashfetchr.Core.Awb.{Awb}
use dashfetchr.Core.Custody.{Event}
use dashfetchr.Core.Custody.Hashing.{Digest}
use dashfetchr.Ports.Carrier.{Carrier}
use dashfetchr.Routing.Strategy.{Strategy}
use dashfetchr.Auth.{retailer_from_context}
use dashfetchr.App.Store.{Store}
use dashfetchr.App.Custodyapp.{list_events}
use dashfetchr.App.Booking.{
  CreateBookingInput, CreateBookingResult, Draw, Quote, create_booking, get_booking,
}
use dashfetchr.App.Dispatch.{dispatch_delivery}
use dashfetchr.Infra.Http.Message.{
  Request, Response, Handler, json, error, literal, of_error, booking_created, booking_view,
  status_text,
}

pub record CreateBookingRequest : Type 0 where
  pub external_awb : String
  pub external_carrier : String
  pub customer_phone : String
  pub customer_name : String
  pub pickup_locker_id : String
  pub pickup_lat : Float64
  pub pickup_lng : Float64
  pub pickup_address : String
  pub drop_lat : Float64
  pub drop_lng : Float64
  pub drop_address : String
  pub drop_floor : String
  pub drop_apartment : String
  pub drop_instructions : String
  pub weight_kg : Float64
  pub slot_start : String
  pub slot_end : String
  pub last_mile_carrier : String

abbrev pub input_of : Retailer → CreateBookingRequest → (start end : Time) → CreateBookingInput
input_of ret body start end = record {
  retailer_id = ret.id;
  external_awb = body.external_awb;
  external_carrier = body.external_carrier;
  customer_phone = body.customer_phone;
  customer_name = body.customer_name;
  pickup_locker_id = body.pickup_locker_id;
  pickup_lat = body.pickup_lat;
  pickup_lng = body.pickup_lng;
  pickup_address = body.pickup_address;
  drop_lat = body.drop_lat;
  drop_lng = body.drop_lng;
  drop_address = body.drop_address;
  drop_floor = body.drop_floor;
  drop_apartment = body.drop_apartment;
  drop_instructions = body.drop_instructions;
  weight_kg = body.weight_kg;
  slot_start = start;
  slot_end = end;
  last_mile_carrier = body.last_mile_carrier;
}

unauthenticated : Response
unfolding error
unauthenticated = error 401 "unauthenticated" (literal "missing retailer context")

invalid_id : Response
unfolding error
invalid_id = error 400 "invalid_id" (literal "deliveryID must be UUID")

-- Bookings.Create
module _ (quote : CreateBookingInput → Quote) (uuid_string : Uuid → String) where
  created : Store × Result CreateBookingResult → Store × Response
  unfolding error json
  created (s, err x) = (s, error 422 "booking_failed" (of_error x))
  created (s, ok out) = (s, json 201 (booking_created out))

  module _ (parse_time : String → Option Time) where
    create_on_slot :
        Draw
        → Retailer
        → CreateBookingRequest
        → Store
        → Option Time
        → Option Time
        → Store × Response
    unfolding created error
    create_on_slot w ret body s none end =
        (s, error 400 "invalid_slot_start" (literal "use RFC3339"))
    create_on_slot w ret body s (some start) none =
        (s, error 400 "invalid_slot_end" (literal "use RFC3339"))
    create_on_slot w ret body s (some start) (some end) =
        created (create_booking quote uuid_string w (input_of ret body start end) s)

    create_of : Draw → Retailer → Store → Result CreateBookingRequest → Store × Response
    unfolding create_on_slot error
    create_of w ret s (err x) = (s, error 400 "invalid_json" (of_error x))
    create_of w ret s (ok body) =
        create_on_slot w ret body s (parse_time body.slot_start) (parse_time body.slot_end)

    module _ (decode : Bytes → Result CreateBookingRequest) where
      create_as : Draw → Request → Store → Option Retailer → Store × Response
      unfolding create_of unauthenticated
      create_as w r s none = (s, unauthenticated)
      create_as w r s (some ret) = create_of w ret s (r.body >>= decode)

      unfoldable pub create : Draw → Handler
      unfolding create_as retailer_from_context
      create w ctx r s = create_as w r s (retailer_from_context ctx)

-- What Get and Dispatch begin with: the caller, the identifier, and the ownership of the parcel; `go` is the
-- rest of the handler.
abbrev pub Rest : Type 0
Rest = Uuid → Delivery → Awb → Store → Store × Response

owned : Rest → Uuid → Retailer → Store → Result (Delivery × Awb) → Store × Response
unfolding error
owned go id ret s (err x) = (s, error 404 "not_found" (of_error x))
owned go id ret s (ok (del, a)) =
    if not (a.retailer_id == ret.id)
    then (s, error 404 "not_found" (literal "booking not found"))
    else go id del a s

owned_id : Rest → Retailer → Store → Option Uuid → Store × Response
unfolding owned invalid_id
owned_id go ret s none = (s, invalid_id)
owned_id go ret s (some id) = owned go id ret s (get_booking id s)

module _ (parse_uuid : String → Option Uuid) where
  owned_as : Rest → Request → Store → Option Retailer → Store × Response
  unfolding owned_id unauthenticated
  owned_as go r s none = (s, unauthenticated)
  owned_as go r s (some ret) = owned_id go ret s (parse_uuid r.delivery_id)

  -- The events are read with their error dropped.
  abbrev or_nil : Result (List Event) → List Event
  or_nil (err x) = []
  or_nil (ok es) = es

  -- Bookings.Get
  unfoldable pub get : Digest → Handler
  unfolding owned_as retailer_from_context json
  get d ctx r s =
      owned_as (λ id del a t. (t, json 200 (booking_view del a (or_nil (list_events d id t))))) r s
        (retailer_from_context ctx)

  answer : Store × Option Error → Store × Response
  unfolding error json
  answer (s, some x) = (s, error 422 "dispatch_failed" (of_error x))
  answer (s, none) = (s, json 202 (status_text "dispatched"))

  -- Bookings.Dispatch; `registered` is what the engine gets from the registry.
  unfoldable pub dispatch : Strategy → List Carrier → (now later : Time) → Handler
  unfolding owned_as retailer_from_context answer
  dispatch strategy registered now later ctx r s =
      owned_as (λ id del a t. answer (dispatch_delivery strategy registered now later id t)) r s
        (retailer_from_context ctx)
