-- ===== src/App/Booking.antt =====
-- internal/app/booking/service.go: a customer's booking makes a parcel and its delivery. What
-- `uuid.New()`, the clock and the random source give is a `Draw`; the quote is a parameter,
-- which Prices gives, and so is how an identifier is printed.
pub mod Results
pub mod Prices
use dashfetchr.Base.{Bytes, Bool, not, Option, none, some, String, str_eq, if◌then◌else◌}
use dashfetchr.Base.Int64.{ℤ, pos}
use dashfetchr.Base.Float64.{Float64, le_f, whole}
use dashfetchr.Base.Time.{Time, before}
use dashfetchr.Base.Uuid.{Uuid}
use dashfetchr.Core.Errors.{Error, external, Result, ok, err, ◌>>=◌, ◌>>◌, refuse_if}
use dashfetchr.Core.Delivery.States.{State}
use dashfetchr.Core.Delivery as Delivery
use dashfetchr.Core.Awb.States.{at_locker}
use dashfetchr.Core.Awb as Awb
use dashfetchr.Core.Awb.Internal.{Entropy}
use dashfetchr.Infra.Memory.AwbRepo as AwbRepo
use dashfetchr.Infra.Memory.DeliveryRepo as DeliveryRepo
use dashfetchr.App.Store.{Store}

pub record CreateBookingInput : Type 0 where
  pub retailer_id : Uuid
  pub external_awb : String
  pub external_carrier : String
  pub customer_phone : String
  pub customer_name : String
  pub pickup_locker_id : String
  pub pickup_lat : Float64
  pub pickup_lng : Float64
  pub pickup_address : String
  pub drop_lat : Float64
  pub drop_lng : Float64
  pub drop_address : String
  pub drop_floor : String
  pub drop_apartment : String
  pub drop_instructions : String
  pub weight_kg : Float64
  pub slot_start : Time
  pub slot_end : Time
  pub last_mile_carrier : String

pub record CreateBookingResult : Type 0 where
  pub awb_id : Uuid
  pub internal_awb : Bytes
  pub delivery_id : Uuid
  pub quoted_price_minor : ℤ
  pub currency : String
  pub state : State

pub record Draw : Type 0 where
  pub awb_id : Uuid
  pub delivery_id : Uuid
  pub entropy : Result Entropy
  pub created_at : Time
  pub attached_at : Time
  pub moved_at : Time
  pub leg_at : Time
  pub checked_at : Time
  pub scheduled_at : Time

-- What a quote gives: the total and the currency.
pub record Quote : Type 0 where
  pub total_minor : ℤ
  pub currency : String

abbrev pub package_of : Float64 → Awb.Package
package_of w = record {
  weight_kg = if le_f w (whole 0) then whole 1 else w;
  length_cm = whole 0;
  width_cm = whole 0;
  height_cm = whole 0;
  declared_value_minor = pos 0;
  declared_value_ccy = "";
  description = "";
  fragile = Bool.false;
}

abbrev pub pickup_of : CreateBookingInput → Delivery.Location
pickup_of i = record {
  type = Delivery.locker;
  lat = i.pickup_lat;
  lng = i.pickup_lng;
  address = i.pickup_address;
  locker_id = i.pickup_locker_id;
  hub_id = "";
  floor = "";
  apartment = "";
  instructions = "";
}

abbrev pub drop_of : CreateBookingInput → Delivery.Location
drop_of i = record {
  type = Delivery.address;
  lat = i.drop_lat;
  lng = i.drop_lng;
  address = i.drop_address;
  locker_id = "";
  hub_id = "";
  floor = i.drop_floor;
  apartment = i.drop_apartment;
  instructions = i.drop_instructions;
}

abbrev pub or_error {ℓ} : {A : Type ℓ} → A × Option Error → Result A
or_error (a, none) = ok a
or_error (a, some x) = err x

-- The parcel, with the tracking number that the customer gave, at the locker.
unfoldable pub booked_awb : Draw → CreateBookingInput → Result Awb.Awb
unfolding Awb.new Awb.attach_external Awb.transition
booked_awb w i = do
  a ← Awb.new w.awb_id w.created_at w.entropy i.retailer_id (package_of i.weight_kg)
  let b =
      if str_eq i.external_awb ""
      then a
      else Awb.attach_external i.external_carrier i.external_awb Awb.mid_mile w.attached_at a
  or_error (Awb.transition at_locker "customer_requested_concierge" w.moved_at b)

abbrev pub carrier_of : CreateBookingInput → String
carrier_of i = if str_eq i.last_mile_carrier "" then "bolt_food" else i.last_mile_carrier

module _ (quote : CreateBookingInput → Quote) (uuid_string : Uuid → String) where
  -- The delivery, on the slot, with its key and its price.
  unfoldable pub booked_delivery : Draw → CreateBookingInput → Awb.Awb → Result Delivery.Delivery
  unfolding Delivery.new Delivery.schedule
  booked_delivery w i a = do
    new ←
        Delivery.new w.delivery_id w.leg_at a.id (pos 1) (carrier_of i) "v1" (pickup_of i)
          (drop_of i)
    del ← or_error (Delivery.schedule i.slot_start i.slot_end w.checked_at w.scheduled_at new)
    ok (record del {
      idempotency_key = uuid_string del.id;
      price_quoted_minor = (quote i).total_minor;
      price_currency = (quote i).currency;
    })

  unfoldable pub booked : Draw → CreateBookingInput → Result (Awb.Awb × Delivery.Delivery)
  unfolding booked_awb booked_delivery
  booked w i = do
    refuse_if (before i.slot_end i.slot_start) (external "booking: invalid slot")
    a ← booked_awb w i
    del ← booked_delivery w i a
    ok (a, del)

  abbrev pub result_of : Awb.Awb → Delivery.Delivery → CreateBookingResult
  result_of a del = record {
    awb_id = a.id;
    internal_awb = a.internal_awb;
    delivery_id = del.id;
    quoted_price_minor = del.price_quoted_minor;
    currency = del.price_currency;
    state = del.state;
  }

  stored : Store → Result (Awb.Awb × Delivery.Delivery) → Store × Result CreateBookingResult
  stored s (err x) = (s, err x)
  stored s (ok (a, del)) = (
    record s { awbs = AwbRepo.save a s.awbs; deliveries = DeliveryRepo.save del s.deliveries },
    ok (result_of a del),
  )

  -- Service.CreateBooking
  unfoldable pub create_booking :
      Draw → CreateBookingInput → Store → Store × Result CreateBookingResult
  unfolding stored
  create_booking w i s = stored s (booked w i)

-- Service.GetBooking
unfoldable pub get_booking : Uuid → Store → Result (Delivery.Delivery × Awb.Awb)
get_booking id s = do
  del ← DeliveryRepo.get_by_id id s.deliveries
  a ← AwbRepo.get_by_id del.awb_id s.awbs
  ok (del, a)
