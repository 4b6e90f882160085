-- ===== src/Examples/Requests.antt =====
-- Runs of the HTTP layer (internal/infra/http): bookings, reads, dispatches and custody events.
use dashfetchr.Base.{
  ◌∙◌, ap, ◌≤◌, ◌^◌, length, Bytes, Option, none, some, String, List, [], ◌∷◌, ◌⊎◌, ◌≢◌, ◌≡◌, refl,
  inl, inr, arith, eq_iff, trim_prefix, All,
}
use dashfetchr.Base.Maps.{Map}
use dashfetchr.Base.Float64.{whole}
use dashfetchr.Base.Uuid.{Uuid}
use dashfetchr.Core.Errors.{ok}
use dashfetchr.Core.Retailer.{Retailer}
use dashfetchr.Core.Delivery.{Delivery}
use dashfetchr.Core.Delivery.States.{pending}
use dashfetchr.Core.Awb.{Awb}
use dashfetchr.Core.Custody.{Event}
use dashfetchr.Auth.{Context, background, with_retailer, with_carrier_id}
use dashfetchr.App.Store.{new_store}
use dashfetchr.App.Booking.{get_booking}
use dashfetchr.Infra.Http.Message.{Request}
use dashfetchr.Infra.Http.Message.{Text, error_body, message_text}
use dashfetchr.Base.Maps.{lookup, nat_eq}
use dashfetchr.Base.{none, some}
use dashfetchr.Infra.Http.Middleware.{require_rider}
use dashfetchr.Infra.Http.Access.{IsCaller, IsRider, require_rider_lem}
use dashfetchr.Infra.Http.Ownership.{
  IsOwner, view, serve_dispatch_lem, serve_get_lem, get_foreign-ne-get_missing,
}
use dashfetchr.Infra.Http.Journeys.{ticket, serve_get-serve_booking, serve_custody_any_carrier}
use dashfetchr.Infra.Http.Handlers.Bookings as Bookings
use dashfetchr.Infra.Http.Handlers.Custody as Custody
use dashfetchr.Infra.Http.Server.{
  Wiring, serve, post_bolt, post_dispatch, post_custody, post_booking,
}
use dashfetchr.Infra.Http.Server as Server
use dashfetchr.Examples.Fixtures.{waiting, parcel, tally}
use dashfetchr.Examples.Desk as Desk
use dashfetchr.Examples.Api.{same_text, parse_uuid, shops, other_shop, desk_api, readings, request}

serve_dispatch_lem_example :
    ((serve desk_api readings post_dispatch (request "Bearer other" "7") Desk.desk).0 ≡ Desk.desk)
    ⊎ ((ret : Retailer) × IsCaller shops same_text (request "Bearer other" "7") ret
        × IsOwner parse_uuid (request "Bearer other" "7") Desk.desk ret)
serve_dispatch_lem_example =
    serve_dispatch_lem desk_api readings (request "Bearer other" "7") Desk.desk

serve_get_lem_example :
    ((serve desk_api readings Server.get_booking (request "Bearer key" "7") Desk.desk).0
      ≡ Desk.desk)
    × ((del : Delivery) (a : Awb) (es : List Event)
        → (serve desk_api readings Server.get_booking (request "Bearer key" "7") Desk.desk).1
          ≡ view del a es
        → (ret : Retailer) × IsCaller shops same_text (request "Bearer key" "7") ret
          × ((id : Uuid) × (parse_uuid "7" ≡ some id)
              × (get_booking id Desk.desk ≡ ok (del, a))
              × (a.retailer_id ≡ ret.id)))
serve_get_lem_example = serve_get_lem desk_api readings (request "Bearer key" "7") Desk.desk

desk_missing : lookup 8 Desk.desk.deliveries.by_id ≡ none
unfolding lookup dashfetchr.Infra.Memory.DeliveryRepo.save dashfetchr.Base.Maps.insert
desk_missing = refl

desk_found : get_booking 7 Desk.desk ≡ ok (waiting, parcel)
unfolding get_booking dashfetchr.Infra.Memory.DeliveryRepo.get_by_id dashfetchr.Base.Maps.lookup
    dashfetchr.Infra.Memory.DeliveryRepo.save dashfetchr.Base.Maps.insert
    dashfetchr.Infra.Memory.AwbRepo.get_by_id dashfetchr.Infra.Memory.AwbRepo.save
desk_found = refl

get_foreign-ne-get_missing_example :
    (m : Text) × (n : Text) × ((Bookings.get parse_uuid tally
        (with_retailer background other_shop)
        (request "" "8")
        Desk.desk).1
      ≡ record { status = 404; payload = error_body m "not_found" })
    × ((Bookings.get parse_uuid tally
          (with_retailer background other_shop)
          (request "" "7")
          Desk.desk).1
        ≡ record { status = 404; payload = error_body n "not_found" })
    × (message_text m ≡ some "not found")
    × (message_text n ≡ some "booking not found")
get_foreign-ne-get_missing_example =
    get_foreign-ne-get_missing parse_uuid tally background other_shop (request "" "8")
      (request "" "7") Desk.desk refl desk_missing refl desk_found (λ h. ground arith)

booked :
    (serve desk_api readings post_booking (request "Bearer key" "") new_store).1
    ≡ ticket Desk.ticket
unfolding serve dashfetchr.Infra.Http.Middleware.require_retailer dashfetchr.Base.cut_prefix
    dashfetchr.Base.trim_space dashfetchr.Auth.hash_api_key Bookings.create
    dashfetchr.App.Booking.create_booking dashfetchr.App.Booking.booked
    dashfetchr.Core.Awb.validate_package dashfetchr.Base.Float64.le_f whole
    dashfetchr.Core.Awb.Internal.generate_internal_awb
    dashfetchr.Core.Awb.States.allowed_transitions dashfetchr.Core.Awb.is_attached
booked = refl

serve_get-serve_booking_example :
    (ret : Retailer) × (a : Awb) × (del : Delivery) × (es : List Event) × IsCaller shops same_text
      (request "Bearer key" "")
      ret
    × ((serve desk_api readings Server.get_booking
          (request "Bearer key" "7")
          (serve desk_api readings post_booking (request "Bearer key" "") new_store).0).1
        ≡ view del a es)
    × (del.state ≡ pending)
    × (a.retailer_id ≡ ret.id)
serve_get-serve_booking_example =
    serve_get-serve_booking desk_api readings readings (request "Bearer key" "")
      (request "Bearer key" "7") new_store booked refl refl

-- The rider of one carrier, and that of another.
abbrev bolt_rider : Request
bolt_rider = request "Bearer bolt_food:b" "8"

abbrev glovo_rider : Request
glovo_rider = request "Bearer glovo:g" "8"

bolt_admitted : (serve desk_api readings post_custody bolt_rider Desk.desk).1.status ≡ 422
unfolding serve require_rider dashfetchr.Base.cut_prefix dashfetchr.Base.trim_space
    dashfetchr.Base.cut Custody.record_event dashfetchr.App.Custodyapp.record_custody
    dashfetchr.Infra.Memory.DeliveryRepo.get_by_id dashfetchr.Infra.Memory.DeliveryRepo.save
    dashfetchr.Base.Maps.insert
bolt_admitted = refl

glovo_admitted : (serve desk_api readings post_custody glovo_rider Desk.desk).1.status ≡ 422
unfolding serve require_rider dashfetchr.Base.cut_prefix dashfetchr.Base.trim_space
    dashfetchr.Base.cut Custody.record_event dashfetchr.App.Custodyapp.record_custody
    dashfetchr.Infra.Memory.DeliveryRepo.get_by_id dashfetchr.Infra.Memory.DeliveryRepo.save
    dashfetchr.Base.Maps.insert
glovo_admitted = refl

serve_custody_any_carrier_example :
    serve desk_api readings post_custody bolt_rider Desk.desk
    ≡ serve desk_api readings post_custody glovo_rider Desk.desk
serve_custody_any_carrier_example =
    serve_custody_any_carrier desk_api readings bolt_rider glovo_rider Desk.desk
      (λ h. let e = bolt_admitted in ground arith) (λ h. let e = glovo_admitted in ground arith)
      refl refl

require_rider_lem_example :
    ((carrier_id : String) × IsRider desk_api.rider_secrets glovo_rider carrier_id
      × (require_rider desk_api.rider_secrets
            (Custody.record_event tally desk_api.decode_custody parse_uuid readings.event)
            background
            glovo_rider
            Desk.desk
          ≡ Custody.record_event tally desk_api.decode_custody parse_uuid readings.event
              (with_carrier_id background carrier_id)
              glovo_rider
              Desk.desk))
    ⊎ (((require_rider desk_api.rider_secrets
            (Custody.record_event tally desk_api.decode_custody parse_uuid readings.event)
            background
            glovo_rider
            Desk.desk).0
          ≡ Desk.desk)
        × ((require_rider desk_api.rider_secrets
              (Custody.record_event tally desk_api.decode_custody parse_uuid readings.event)
              background
              glovo_rider
              Desk.desk).1.status
            ≡ 401))
require_rider_lem_example =
    require_rider_lem desk_api.rider_secrets
      (Custody.record_event tally desk_api.decode_custody parse_uuid readings.event) background
      glovo_rider Desk.desk
