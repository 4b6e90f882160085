-- ===== src/Examples/Rides.antt =====
-- A ride: the five custody events that deliver a booking (internal/app/custodyapp).
use dashfetchr.Base.{◌≡◌, refl, String, List, [], ◌∷◌}
use dashfetchr.Core.Errors.{ok}
use dashfetchr.Core.Delivery.{Delivery}
use dashfetchr.Core.Delivery.States.{
  pending, assigned, en_route_pickup, picked_up, in_transit, delivered,
}
use dashfetchr.Core.Custody.{
  EventType, validate, rider_assigned, rider_arrived_at_locker, package_picked_up, rider_in_transit,
  package_delivered,
}
use dashfetchr.Infra.Memory.DeliveryRepo.{get_by_id}
use dashfetchr.App.Store.{new_store}
use dashfetchr.App.Custodyapp.{RecordInput, Fresh}
use dashfetchr.App.Booking.{create_booking}
use dashfetchr.App.Fulfilment.{IsEncoded, IsPlan, IsNew, run_all, run_all-create_booking}
use dashfetchr.Examples.Fixtures.{tally}
use dashfetchr.Examples.Services.{draw, order_form, price, print, reading, input, s1}
use dashfetchr.Base.Uuid.{Uuid}
use dashfetchr.Examples.Desk as Desk

abbrev drop_off : List (Fresh × RecordInput)
drop_off = (reading 105, input package_delivered) ∷ []

abbrev drive : List (Fresh × RecordInput)
drive = (reading 104, input rider_in_transit) ∷ drop_off

abbrev pick_up : List (Fresh × RecordInput)
pick_up = (reading 103, input package_picked_up) ∷ drive

abbrev arrive : List (Fresh × RecordInput)
arrive = (reading 102, input rider_arrived_at_locker) ∷ pick_up

abbrev ride : List (Fresh × RecordInput)
ride = (reading 101, input rider_assigned) ∷ arrive

booked : (create_booking price print draw order_form new_store).1 ≡ ok Desk.ticket
unfolding create_booking dashfetchr.App.Booking.booked dashfetchr.Core.Awb.validate_package
    dashfetchr.Base.Float64.le_f dashfetchr.Base.Float64.whole
    dashfetchr.Core.Awb.Internal.generate_internal_awb
    dashfetchr.Core.Awb.States.allowed_transitions dashfetchr.Core.Awb.is_attached
booked = refl

encoded : (n : Uuid) (t : EventType) → IsEncoded tally (reading n) (input t)
encoded n t = (_, refl)

ride-IsNew : IsNew tally ride new_store.custody
unfolding dashfetchr.Infra.Memory.CustodyRepo.events_of dashfetchr.Core.Custody.Recording.has_event
    dashfetchr.Base.Maps.lookup
ride-IsNew = (λ id. refl, (λ id. refl, (λ id. refl, (λ id. refl, (λ id. refl, tt)))))

drop_off-IsPlan : IsPlan tally 7 in_transit drop_off delivered
unfolding validate dashfetchr.Core.Delivery.States.allowed_transitions
drop_off-IsPlan = (refl, refl, encoded 105 package_delivered, tt, (delivered, refl, refl, refl))

drive-IsPlan : IsPlan tally 7 picked_up drive delivered
unfolding validate dashfetchr.Core.Delivery.States.allowed_transitions
drive-IsPlan = (
  refl,
  refl,
  encoded 104 rider_in_transit,
  (refl, tt),
  (in_transit, refl, refl, drop_off-IsPlan),
)

pick_up-IsPlan : IsPlan tally 7 en_route_pickup pick_up delivered
unfolding validate dashfetchr.Core.Delivery.States.allowed_transitions
pick_up-IsPlan = (
  refl,
  refl,
  encoded 103 package_picked_up,
  (refl, (refl, tt)),
  (picked_up, refl, refl, drive-IsPlan),
)

arrive-IsPlan : IsPlan tally 7 assigned arrive delivered
unfolding validate dashfetchr.Core.Delivery.States.allowed_transitions
arrive-IsPlan = (
  refl,
  refl,
  encoded 102 rider_arrived_at_locker,
  (refl, (refl, (refl, tt))),
  (en_route_pickup, refl, refl, pick_up-IsPlan),
)

ride-IsPlan : IsPlan tally 7 pending ride delivered
unfolding validate dashfetchr.Core.Delivery.States.allowed_transitions
ride-IsPlan = (
  refl,
  refl,
  encoded 101 rider_assigned,
  (refl, (refl, (refl, (refl, tt)))),
  (assigned, refl, refl, arrive-IsPlan),
)

run_all-create_booking_example :
    (k : Delivery) × (get_by_id 7 (run_all tally ride s1).deliveries ≡ ok k) × (k.state ≡ delivered)
run_all-create_booking_example =
    run_all-create_booking tally price print draw order_form new_store {out = Desk.ticket} ride
      booked ride-IsNew ride-IsPlan
