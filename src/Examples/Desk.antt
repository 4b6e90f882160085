-- ===== src/Examples/Desk.antt =====
-- Runs of the booking, the dispatch and the webhooks (internal/app).
use dashfetchr.Base.{
  Bytes, ap, sym, ◌∙◌, arith, ℕ, ◌≤◌, true, false, Option, none, some, ◌≡◌, ◌≢◌, refl, List, [],
  ◌∷◌, All, inl, inr,
}
use dashfetchr.Base.Int64.{pos}
use dashfetchr.Base.Maps.{lookup}
use dashfetchr.Core.Errors.{Result, ok-injective, ok, err, external, not_pending}
use dashfetchr.Core.Delivery.States.{pending, assigned}
use dashfetchr.Core.Delivery.{Delivery}
use dashfetchr.Core.Awb.{Awb}
use dashfetchr.Core.Awb.States.{at_locker}
use dashfetchr.Infra.Memory.DeliveryRepo.{get_by_id, save}
use dashfetchr.Infra.Memory.DeliveryRepo as DeliveryRepo
use dashfetchr.Infra.Memory.AwbRepo as AwbRepo
use dashfetchr.Core.Awb.Internal.{generate_internal_awb}
use dashfetchr.Infra.Memory.CustodyRepo.{events_of}
use dashfetchr.App.Evidence.Bookings.{pending-IsEvidenced}
use dashfetchr.Examples.Stores.{as_stored-IsOrder}
use dashfetchr.Ports.Carrier.{ShipmentResponse, last_mile}
use dashfetchr.Ports.Events as Events
use dashfetchr.Routing.Strategy.{cheapest_strategy}
use dashfetchr.Routing.Engine.{Decision, decide_route}
use dashfetchr.App.Store.{Store, new_store}
use dashfetchr.App.Booking.{create_booking, get_booking, CreateBookingResult}
use dashfetchr.App.Booking.Results.{get_booking-create_booking, create_booking_err}
use dashfetchr.App.Dispatch.{dispatch_delivery, dispatch_pending, build_shipment_request}
use dashfetchr.App.Dispatch.Results.{dispatch_delivery_ok, dispatch_delivery-dispatch_delivery}
use dashfetchr.App.Webhook.{on_rider_assigned, handle_domain_event}
use dashfetchr.App.Shortfalls.{
  save-IsBefore, IsBefore, on_rider_assigned_fails, handle_domain_event-IsBefore,
}
use dashfetchr.App.Evidence.Stores.{save-IsCovered, new-IsCovered}
use dashfetchr.Examples.Fixtures.{
  night, seed, noon, evening, waiting, parcel, tally, dear, cheap, as_stored,
}
use dashfetchr.Examples.Services.{s1, draw, order_form, price, print, reading}

abbrev pub text_of : Result Bytes → Bytes
text_of (ok b) = b
text_of (err x) = []

abbrev pub ticket : CreateBookingResult
ticket = record {
  awb_id = 5;
  internal_awb = text_of (generate_internal_awb (ok seed) noon);
  delivery_id = 7;
  quoted_price_minor = pos 1200;
  currency = "RON";
  state = pending;
}

get_booking-create_booking_example :
    (a : Awb) × (del : Delivery) × (get_booking 7 s1 ≡ ok (del, a))
    × (del.state ≡ pending)
    × (del.scheduled_window_start ≡ some evening)
    × (del.scheduled_window_end ≡ some night)
    × (del.price_quoted_minor ≡ pos 1200)
    × (a.state ≡ at_locker)
    × (a.retailer_id ≡ 3)
unfolding create_booking dashfetchr.App.Booking.booked dashfetchr.Core.Awb.validate_package
    dashfetchr.Base.Float64.le_f dashfetchr.Base.Float64.whole generate_internal_awb
    dashfetchr.Core.Awb.States.allowed_transitions dashfetchr.Core.Awb.is_attached
get_booking-create_booking_example =
    get_booking-create_booking price print draw order_form new_store {r = ticket} refl

create_booking_err_example :
    (create_booking price print draw (record order_form { slot_end = noon }) new_store).0
    ≡ new_store
unfolding create_booking dashfetchr.App.Booking.booked
create_booking_err_example =
    create_booking_err price print draw (record order_form { slot_end = noon }) new_store
      {x = external "booking: invalid slot"} refl

abbrev pub desk : Store
desk = record new_store {
  awbs = AwbRepo.save parcel AwbRepo.new;
  deliveries = save waiting DeliveryRepo.new;
}

desk-found : get_by_id 7 desk.deliveries ≡ ok waiting
unfolding get_by_id lookup save dashfetchr.Base.Maps.insert
desk-found = refl

desk-named : (del : Delivery) → get_by_id 7 desk.deliveries ≡ ok del → del.id ≡ 7
desk-named del h = ap (λ (d : Delivery). d.id) (ok-injective (sym h ∙ desk-found))

desk-dispatched : (dispatch_delivery cheapest_strategy (cheap ∷ []) noon noon 7 desk).1 ≡ none
unfolding dispatch_delivery dashfetchr.App.Dispatch.dispatched get_by_id lookup save
    dashfetchr.Base.Maps.insert AwbRepo.get_by_id AwbRepo.save decide_route
    dashfetchr.Routing.Engine.eligible dashfetchr.Routing.Engine.is_skipped
    dashfetchr.Routing.Engine.has_role dashfetchr.Base.Float64.lt_f dashfetchr.Base.Float64.whole
    dashfetchr.Routing.Dimensions.exceeds_dims dashfetchr.Routing.Engine.supports_pickup
    dashfetchr.Routing.Strategy.select_cheapest dashfetchr.App.Dispatch.assignment
    build_shipment_request dashfetchr.App.Dispatch.to_pickup_mode
    dashfetchr.Core.Delivery.States.allowed_transitions dashfetchr.Core.Delivery.can_transition_to
    dashfetchr.Core.Delivery.transition DeliveryRepo.has_id dashfetchr.Routing.Dimensions.sort_desc
    dashfetchr.Routing.Engine.decide_among dashfetchr.Routing.Engine.score_all
    dashfetchr.Routing.Strategy.best_from
desk-dispatched = refl

dispatch_delivery_ok_example :
    (del : Delivery) × (a : Awb) × (dec : Decision) × (resp : ShipmentResponse) × (k : Delivery)
    × (get_by_id 7 desk.deliveries ≡ ok del)
    × (del.state ≡ pending)
    × (decide_route cheapest_strategy noon (build_shipment_request a del) last_mile (cheap ∷ [])
        ≡ ok dec)
    × (dec.chosen.create_shipment (build_shipment_request a del) ≡ ok resp)
    × (get_by_id 7 (dispatch_delivery cheapest_strategy (cheap ∷ []) noon noon 7 desk).0.deliveries
        ≡ ok k)
    × (k.state ≡ assigned)
    × (k.carrier_id ≡ dec.chosen.capabilities.id)
    × (k.carrier_external_id ≡ resp.external_id)
dispatch_delivery_ok_example =
    dispatch_delivery_ok cheapest_strategy (cheap ∷ []) noon noon 7 desk desk-dispatched desk-named

dispatch_delivery-dispatch_delivery_example :
    dispatch_delivery cheapest_strategy
      (dear ∷ [])
      evening
      evening
      7
      (dispatch_delivery cheapest_strategy (cheap ∷ []) noon noon 7 desk).0
    ≡ (
      (dispatch_delivery cheapest_strategy (cheap ∷ []) noon noon 7 desk).0,
      some (not_pending 7 assigned),
    )
dispatch_delivery-dispatch_delivery_example =
    dispatch_delivery-dispatch_delivery cheapest_strategy cheapest_strategy (cheap ∷ []) (dear ∷ [])
      noon noon evening evening 7 desk desk-named desk-dispatched

abbrev ana : Events.Rider
ana = record { id = "R1"; name = "Ana"; phone = "07"; vehicle = "bike" }

on_rider_assigned_fails_example :
    (on_rider_assigned tally (reading 101) waiting "bolt_food" ana desk).1 ≢ none
unfolding dashfetchr.Core.Custody.Recording.has_event events_of lookup
on_rider_assigned_fails_example =
    on_rider_assigned_fails tally (reading 101) "bolt_food" ana desk waiting (λ id. refl) refl
      (inl refl)

abbrev dropped : Events.DomainEvent
dropped =
    Events.package_delivered
      (record { type = "package.delivered"; time = noon; ext_id = "B-1"; carrier_id = "bolt_food" })
      none "" ""

desk-IsBefore : IsBefore desk.deliveries
unfolding lookup
desk-IsBefore = save-IsBefore waiting DeliveryRepo.new refl λ id del h. absurd (ground arith)

handle_domain_event-IsBefore_example :
    IsBefore
      (handle_domain_event tally as_stored (reading 101) "bolt_food" dropped desk).0.deliveries
unfolding dashfetchr.Core.Custody.Recording.has_event events_of lookup
handle_domain_event-IsBefore_example =
    handle_domain_event-IsBefore tally (reading 101) desk (λ id. refl)
      (save-IsCovered waiting 7 DeliveryRepo.new new_store.custody refl
        (pending-IsEvidenced waiting (events_of new_store.custody 7) refl) new-IsCovered)
      desk-IsBefore as_stored "bolt_food" dropped as_stored-IsOrder
