-- ===== src/Core/Delivery.antt =====
-- internal/core/delivery/delivery.go: the leg-level aggregate. A method on `*Delivery` returns the new
-- value and the error; `time.Now().UTC()` is the argument `now`. `Metadata`, which nothing sets, is
-- left out.
pub mod States
pub mod Lifecycle
pub mod Histories
use dashfetchr.Base.{
  ℕ, String, Bool, Option, none, some, ◌||◌, ltb, str_eq, if◌then◌else◌, true, false, not,
}
use dashfetchr.Base.Int64.{ℤ, pos, ltb_ℤ}
use dashfetchr.Base.Float64.{Float64}
use dashfetchr.Base.Time.{Time, utc, before}
use dashfetchr.Base.Uuid.{Uuid}
use dashfetchr.Core.Errors.{
  Error, leg_number, carrier_required, schedule_order, schedule_past, cannot_cancel,
  delivery_transition, Result, ok, err,
}
use States.{
  State, pending, assigned, picked_up, delivered, failed, cancelled, allowed_transitions,
  is_with_rider,
}

pub data LocationType : Type 0 where
  address locker hub : LocationType

pub record Location : Type 0 where
  pub type : LocationType
  pub lat : Float64
  pub lng : Float64
  pub address : String
  pub locker_id : String
  pub hub_id : String
  pub floor : String
  pub apartment : String
  pub instructions : String

pub record Rider : Type 0 where
  pub id : String
  pub name : String
  pub phone : String
  pub vehicle : String

pub record Delivery : Type 0 where
  pub id : Uuid
  pub awb_id : Uuid
  pub leg_number : ℤ
  pub carrier_id : String
  pub carrier_version : String
  pub carrier_external_id : String
  pub pickup : Location
  pub drop : Location
  pub scheduled_window_start : Option Time
  pub scheduled_window_end : Option Time
  pub state : State
  pub state_reason : String
  pub rider : Option Rider
  pub price_quoted_minor : ℤ
  pub price_charged_minor : ℤ
  pub price_currency : String
  pub estimated_pickup_at : Option Time
  pub estimated_drop_at : Option Time
  pub actual_pickup_at : Option Time
  pub actual_drop_at : Option Time
  pub idempotency_key : String
  pub created_at : Time
  pub updated_at : Time

unfoldable pub new :
    (id : Uuid) (now : Time) (awb_id : Uuid) (leg : ℤ) (carrier_id version : String)
    (pickup drop : Location)
    → Result Delivery
new id now awb_id leg carrier_id version pickup drop =
    if ltb_ℤ leg (pos 1)
    then err leg_number
    else if str_eq carrier_id "" || str_eq version ""
    then err carrier_required
    else ok (record {
      id = id;
      awb_id = awb_id;
      leg_number = leg;
      carrier_id = carrier_id;
      carrier_version = version;
      carrier_external_id = "";
      pickup = pickup;
      drop = drop;
      scheduled_window_start = none;
      scheduled_window_end = none;
      state = pending;
      state_reason = "";
      rider = none;
      price_quoted_minor = pos 0;
      price_charged_minor = pos 0;
      price_currency = "RON";
      estimated_pickup_at = none;
      estimated_drop_at = none;
      actual_pickup_at = none;
      actual_drop_at = none;
      idempotency_key = "";
      created_at = utc now;
      updated_at = utc now;
    })

-- The clock is read twice, for the check and for the stamp.
unfoldable pub schedule : (start end now later : Time) → Delivery → Delivery × Option Error
schedule start end now later d =
    if not (before start end)
    then (d, some schedule_order)
    else if before start (utc now)
    then (d, some schedule_past)
    else (
      record d {
        scheduled_window_start = some start;
        scheduled_window_end = some end;
        updated_at = utc later;
      },
      none,
    )

unfoldable pub can_transition_to : Delivery → State → Bool
can_transition_to d to = allowed_transitions d.state to

unfoldable pub transition : State → String → Time → Delivery → Delivery × Option Error
unfolding can_transition_to
transition to reason now d =
    if not (can_transition_to d to)
    then (d, some (delivery_transition d.state to))
    else (record d { state = to; state_reason = reason; updated_at = utc now }, none)

-- `if err := d.Transition(...); err != nil { return err }`, then the assignment.
abbrev on_success : Delivery × Option Error → (Delivery → Delivery) → Delivery × Option Error
on_success (d, none) f = (f d, none)
on_success (d, some e) f = (d, some e)

unfoldable pub assign_rider : Rider → Time → Delivery → Delivery × Option Error
unfolding transition
assign_rider r now d = on_success (transition assigned "" now d) λ t. record t { rider = some r }

unfoldable pub mark_picked_up : (at now : Time) → Delivery → Delivery × Option Error
unfolding transition
mark_picked_up at now d =
    on_success (transition picked_up "" now d) λ t. record t { actual_pickup_at = some at }

unfoldable pub mark_delivered : (at now : Time) → Delivery → Delivery × Option Error
unfolding transition
mark_delivered at now d =
    on_success (transition delivered "" now d) λ t. record t { actual_drop_at = some at }

unfoldable pub mark_failed : String → Time → Delivery → Delivery × Option Error
unfolding transition
mark_failed reason now d = transition failed reason now d

unfoldable pub cancel : String → Time → Delivery → Delivery × Option Error
unfolding transition
cancel reason now d =
    if is_with_rider d.state
    then (d, some (cannot_cancel d.state))
    else transition cancelled reason now d
