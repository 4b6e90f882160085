-- ===== src/App/Dispatch/Limits.antt =====
-- About the limits of a dispatch (internal/app/dispatch/service.go): lockers, and the number of
-- deliveries.
use dashfetchr.Base.Maps.{IsOrder}
use dashfetchr.Adapters.Bolt.{build_capabilities}
use dashfetchr.Registry.{Registry, list_by_role}
use dashfetchr.Registry.Wire.{wire, list_by_role-wire}
use dashfetchr.Base.{
  All, ℕ, suc, ◌+◌, ◌≤◌, length, false, Option, none, some, ◌≡◌, refl, ap, ◌∙◌, List, [], ◌∷◌,
  arith, if◌then◌else◌,
}
use dashfetchr.Base.Int64.{ℤ, pos, ltb_ℤ, pos_part}
use dashfetchr.Base.Uuid.{Uuid}
use dashfetchr.Base.Time.{Time}
use dashfetchr.Base.Maps.{Map}
use dashfetchr.Core.Errors.{Error, ok, wrapped, no_eligible_carrier}
use dashfetchr.Core.Delivery.States.{pending}
use dashfetchr.Core.Delivery.{Delivery, transition}
use dashfetchr.Core.Delivery as Delivery
use dashfetchr.Core.Awb.{Awb}
use dashfetchr.Infra.Memory.AwbRepo as AwbRepo
use dashfetchr.Infra.Memory.DeliveryRepo.{get_by_id, list_by_state}
use dashfetchr.Infra.Memory.DeliveryRepo.Listing.{list_by_state_bounds}
use dashfetchr.Ports.Carrier as Carrier
use dashfetchr.Ports.Carrier.{ShipmentRequest, Carrier, ShipmentResponse, last_mile}
use dashfetchr.Routing.Strategy.{Strategy}
use dashfetchr.Routing.Engine.{eligible, supports_pickup, decide_among, is_skipped, decide_route}
use dashfetchr.App.Store.{Store}
use dashfetchr.App.Dispatch.{
  String, count_of, to_pickup_mode, build_shipment_request, assignment, dispatched,
  dispatch_delivery, dispatch_each, dispatch_pending,
}

-- A carrier without the locker pickup mode.
abbrev pub IsNoLocker : Carrier → Type 0
IsNoLocker c = supports_pickup c.capabilities Carrier.locker ≡ false

no_lockers :
    (req : ShipmentRequest) (cs : List Carrier)
    → All IsNoLocker cs
    → req.pickup.type ≡ Carrier.locker
    → eligible req last_mile cs ≡ []
unfolding eligible is_skipped
no_lockers req [] all at = refl
no_lockers req (c ∷ cs) (h, all) at =
    let no_mode : supports_pickup c.capabilities req.pickup.type ≡ false =
      ap (supports_pickup c.capabilities) at ∙ h in
    ground (arith, no_lockers req cs all at)

from_locker :
    (a : Awb) (del : Delivery)
    → del.pickup.type ≡ Delivery.locker
    → (build_shipment_request a del).pickup.type ≡ Carrier.locker
unfolding build_shipment_request
from_locker a del h = ap to_pickup_mode h

-- A delivery from a locker that meets only carriers without the locker mode cannot be dispatched.
pub dispatch_delivery_locker :
    (strategy : Strategy) (registered : List Carrier) (now later : Time) (id : Uuid) (s : Store)
    {del : Delivery} {a : Awb}
    → All IsNoLocker registered
    → get_by_id id s.deliveries ≡ ok del
    → del.state ≡ pending
    → del.pickup.type ≡ Delivery.locker
    → AwbRepo.get_by_id del.awb_id s.awbs ≡ ok a
    → dispatch_delivery strategy registered now later id s
      ≡ (s, some (wrapped "dispatch: routing" no_eligible_carrier))
unfolding dispatch_delivery dispatched assignment decide_route decide_among
dispatch_delivery_locker strategy registered now later id s {del} {a} all g st lk ga =
    let none_left : eligible (build_shipment_request a del) last_mile registered ≡ [] =
      no_lockers (build_shipment_request a del) registered all (from_locker a del lk) in
    ground arith

module _ (strategy : Strategy) (registered : List Carrier) where
  count_of_bounds :
      (o : Option Error) (n : ℕ)
      → (n ≤ count_of strategy registered o n) × (count_of strategy registered o n ≤ suc n)
  unfolding count_of
  count_of_bounds none n = (omega arith, omega arith)
  count_of_bounds (some x) n = (omega arith, omega arith)

  dispatch_each_bounds :
      (clock : ℕ → Time × Time) (dels : List Delivery) (n : ℕ) (s : Store)
      → (n ≤ (dispatch_each strategy registered clock dels n s).1)
        × ((dispatch_each strategy registered clock dels n s).1 ≤ n + length dels)
  unfolding dispatch_each
  dispatch_each_bounds clock [] n s = (omega arith, omega arith)
  dispatch_each_bounds clock (del ∷ dels) n s =
      let r = dispatch_delivery strategy registered (clock 0).0 (clock 0).1 del.id s in
      let m = count_of strategy registered r.1 n in
      let (l, u) = dispatch_each_bounds (λ i. clock (suc i)) dels m r.0 in
      let (a, b) = count_of_bounds r.1 n in (omega arith, omega arith)

  -- `DispatchPending` reports at most as many dispatches as its limit, which is 20 where the caller's
  -- is not positive.
  pub dispatch_pending_bounds :
      (order : Map Uuid Delivery → Map Uuid Delivery) (clock : ℕ → Time × Time) (limit : ℤ)
      (s : Store)
      → (dispatch_pending strategy registered order clock limit s).1
        ≤ (if ltb_ℤ (pos 0) limit then pos_part limit else 20)
  unfolding dispatch_pending
  dispatch_pending_bounds order clock limit s =
      let n = if ltb_ℤ (pos 0) limit then limit else pos 20 in
      let (all, size) = list_by_state_bounds order pending n s.deliveries in
      let (l, u) = dispatch_each_bounds clock (list_by_state order pending n s.deliveries) 0 s in
      ground arith

no_lockers_wired :
    (bolt : Carrier) (cs : List Carrier)
    → bolt.capabilities ≡ build_capabilities
    → All (λ c. c ≡ bolt) cs
    → All IsNoLocker cs
unfolding build_capabilities supports_pickup
no_lockers_wired bolt [] h all = tt
no_lockers_wired bolt (c ∷ cs) h (e, all) = (
  ap (λ (x : Carrier). supports_pickup x.capabilities Carrier.locker) e
      ∙ ap (λ caps. supports_pickup caps Carrier.locker) h,
  no_lockers_wired bolt cs h all,
)

-- With the registry that `Wire` makes, of an adapter that declares what Bolt declares, no delivery from a
-- locker is dispatched, whatever the strategy: the stores stay, and the error is `ErrNoEligibleCarrier`.
pub dispatch_delivery_wired :
    (bolt : Carrier) (order : Map String String → Map String String) (strategy : Strategy)
    (now later : Time) (id : Uuid) (s : Store) {r : Registry} {cs : List Carrier} {del : Delivery}
    {a : Awb}
    → bolt.capabilities ≡ build_capabilities
    → IsOrder order
    → wire bolt ≡ ok r
    → list_by_role order last_mile r ≡ some cs
    → get_by_id id s.deliveries ≡ ok del
    → del.state ≡ pending
    → del.pickup.type ≡ Delivery.locker
    → AwbRepo.get_by_id del.awb_id s.awbs ≡ ok a
    → dispatch_delivery strategy cs now later id s
      ≡ (s, some (wrapped "dispatch: routing" no_eligible_carrier))
dispatch_delivery_wired bolt order strategy now later id s {r} {cs} caps visits h l g st lk ga =
    dispatch_delivery_locker strategy cs now later id s
      (no_lockers_wired bolt cs caps (list_by_role-wire bolt order last_mile visits h l)) g st lk ga
