-- ===== src/Core/Delivery/Histories.antt =====
-- What every history of calls on a delivery (internal/core/delivery) keeps: a client may make any
-- calls in any order, and go on after an error.
use dashfetchr.Base.{
  ℕ, ◌+◌, ◌*◌, ◌≤◌, Bool, true, false, ◌||◌, Option, none, some, ◌≡◌, refl, String, List, [], ◌∷◌,
  arith, str_eq, ◌∙◌, ◌⊎◌, inl, inr,
}
use dashfetchr.Base.Int64.{ℤ, pos, ◌≤ℤ◌}
use dashfetchr.Base.Time.{Time, before}
use dashfetchr.Base.Uuid.{Uuid}
use dashfetchr.Core.Errors.{ok}
use dashfetchr.Core.Delivery.States.{
  State, pending, assigned, en_route_pickup, picked_up, in_transit, en_route_drop, delivered,
  failed, allowed_transitions, is_terminal,
}
use dashfetchr.Core.Delivery.{Delivery, Location, new}
use dashfetchr.Core.Delivery.Lifecycle.{
  Call, schedule_call, assign_call, picked_up_call, delivered_call, failed_call, cancel_call,
  transition_call, perform, history, perform-allowed_transitions, is_terminal_iff,
}

-- A window is given as a whole or not at all, and ends after it starts.
abbrev pub IsWindow : Option Time → Option Time → Type 0
IsWindow none none = Unit
IsWindow (some s) (some e) = before s e ≡ true
IsWindow _ _ = ⊥

pub record IsValid (d : Delivery) : Type 0 where
  pub leg : pos 1 ≤ℤ d.leg_number
  pub carrier : str_eq d.carrier_id "" ≡ false
  pub version : str_eq d.carrier_version "" ≡ false
  pub window : IsWindow d.scheduled_window_start d.scheduled_window_end

-- A delivery that `New` returns is valid, and pending.
pub new-IsValid :
    (id : Uuid) (now : Time) (awb_id : Uuid) (leg : ℤ) (carrier_id version : String)
    (pickup drop : Location) {d : Delivery}
    → new id now awb_id leg carrier_id version pickup drop ≡ ok d
    → IsValid d × (d.state ≡ pending)
unfolding new
new-IsValid id now awb_id leg carrier_id version pickup drop h = ground arith

pub perform-IsValid : (c : Call) (d : Delivery) → IsValid d → IsValid (perform c d).0
unfolding perform
perform-IsValid (schedule_call start end now later) d v = ground arith
perform-IsValid (assign_call r now) d v = ground arith
perform-IsValid (picked_up_call at now) d v = ground arith
perform-IsValid (delivered_call at now) d v = ground arith
perform-IsValid (failed_call reason now) d v = ground arith
perform-IsValid (cancel_call reason now) d v = ground arith
perform-IsValid (transition_call to reason now) d v = ground arith

-- Every history of calls, accepted or refused, keeps a delivery valid.
pub history-IsValid : (cs : List Call) (d : Delivery) → IsValid d → IsValid (history cs d)
unfolding history
history-IsValid [] d v = v
history-IsValid (c ∷ cs) d v = history-IsValid cs (perform c d).0 (perform-IsValid c d v)

-- How many changes of state a history makes.
abbrev count_if : Bool → ℕ
count_if true = 1
count_if false = 0

unfoldable pub moves : List Call → Delivery → ℕ
moves [] d = 0
moves (c ∷ cs) d =
    count_if (allowed_transitions d.state (perform c d).0.state) + moves cs (perform c d).0

abbrev is_retry : State → State → Bool
is_retry failed assigned = true
is_retry _ _ = false

-- How many of them take a failed delivery back to assigned.
unfoldable pub retries : List Call → Delivery → ℕ
retries [] d = 0
retries (c ∷ cs) d = count_if (is_retry d.state (perform c d).0.state) + retries cs (perform c d).0

-- How many changes of state are left without a retry.
abbrev left : State → ℕ
left pending = 7
left assigned = 6
left en_route_pickup = 5
left picked_up = 4
left in_transit = 3
left en_route_drop = 2
left failed = 1
left _ = 0

left_step :
    (s t : State)
    → (t ≡ s) ⊎ (allowed_transitions s t ≡ true)
    → count_if (allowed_transitions s t) + left t ≤ left s + 6 * count_if (is_retry s t)
unfolding allowed_transitions
left_step s t (inl e) = ground arith
left_step s t (inr e) = ground arith

moves_left :
    (cs : List Call) (d : Delivery)
    → moves cs d + left (history cs d).state ≤ left d.state + 6 * retries cs d
unfolding moves retries history
moves_left [] d = omega arith
moves_left (c ∷ cs) d = omega (
  arith,
  moves_left cs (perform c d).0,
  left_step d.state (perform c d).0.state (perform-allowed_transitions c d),
)

left_le : (s : State) → left s ≤ 7
left_le s = ground arith

-- A delivery changes its state at most seven times, and six times more for each retry after a failure.
pub moves-le-retries : (cs : List Call) (d : Delivery) → moves cs d ≤ 7 + 6 * retries cs d
moves-le-retries cs d = omega (arith, moves_left cs d, left_le d.state)

stay : (s t : State) → is_terminal s ≡ true → (t ≡ s) ⊎ (allowed_transitions s t ≡ true) → t ≡ s
stay s t h (inl e) = e
stay s t h (inr e) = ground (arith, (is_terminal_iff s).0 h t)

-- No history of calls changes the state of a delivery that is delivered, cancelled or returned.
pub history-is_terminal :
    (cs : List Call) (d : Delivery) → is_terminal d.state ≡ true → (history cs d).state ≡ d.state
unfolding history
history-is_terminal [] d h = refl
history-is_terminal (c ∷ cs) d h =
    let same = stay d.state (perform c d).0.state h (perform-allowed_transitions c d) in
    history-is_terminal cs (perform c d).0 (rw same h) ∙ same

abbrev pub is_aboard : State → Bool
is_aboard picked_up = true
is_aboard in_transit = true
is_aboard en_route_drop = true
is_aboard delivered = true
is_aboard _ = false

abbrev is_picked_up : State → Bool
is_picked_up picked_up = true
is_picked_up _ = false

-- Whether some call of the history leaves the delivery picked up.
unfoldable pub visits_pickup : List Call → Delivery → Bool
visits_pickup [] d = false
visits_pickup (c ∷ cs) d = is_picked_up (perform c d).0.state || visits_pickup cs (perform c d).0

board :
    (s t : State)
    → is_aboard s ≡ false
    → (t ≡ s) ⊎ (allowed_transitions s t ≡ true)
    → (is_picked_up t ≡ true) ⊎ (is_aboard t ≡ false)
unfolding allowed_transitions
board s t h (inl e) = ground arith
board s t h (inr e) = ground arith

-- No history takes a delivery from a state before the pickup to picked up, in transit, en route to
-- the drop or delivered without a call that left it picked up.
pub visits_pickup_of_is_aboard :
    (cs : List Call) (d : Delivery)
    → is_aboard d.state ≡ false
    → is_aboard (history cs d).state ≡ true
    → visits_pickup cs d ≡ true
unfolding visits_pickup history
visits_pickup_of_is_aboard [] d h k = cc
visits_pickup_of_is_aboard (c ∷ cs) d h k =
    elim (board d.state (perform c d).0.state h (perform-allowed_transitions c d)) [
      | inl p ↦ rw p
      | inr q ↦ ground (arith, visits_pickup_of_is_aboard cs (perform c d).0 q k)
    ]
