-- ===== src/Core/Delivery/States.antt =====
-- internal/core/delivery/state.go: the states of one leg, and the table of allowed transitions.
use dashfetchr.Base.{ℕ, ◌==◌, ◌≡◌, ◌↔◌, arith, Bool, true, false}

pub data State : Type 0 where
  pending assigned en_route_pickup picked_up in_transit en_route_drop delivered failed : State
  cancelled returned_to_origin : State

-- `allowedTransitions[from][to]`; a missing key reads false.
unfoldable pub allowed_transitions : State → State → Bool
allowed_transitions pending assigned = true
allowed_transitions pending cancelled = true
allowed_transitions assigned en_route_pickup = true
allowed_transitions assigned cancelled = true
allowed_transitions assigned failed = true
allowed_transitions en_route_pickup picked_up = true
allowed_transitions en_route_pickup failed = true
allowed_transitions en_route_pickup cancelled = true
allowed_transitions picked_up in_transit = true
allowed_transitions picked_up en_route_drop = true
allowed_transitions picked_up failed = true
allowed_transitions picked_up returned_to_origin = true
allowed_transitions in_transit en_route_drop = true
allowed_transitions in_transit failed = true
allowed_transitions in_transit returned_to_origin = true
allowed_transitions in_transit delivered = true
allowed_transitions en_route_drop delivered = true
allowed_transitions en_route_drop failed = true
allowed_transitions en_route_drop returned_to_origin = true
allowed_transitions failed returned_to_origin = true
allowed_transitions failed assigned = true
allowed_transitions _ _ = false

unfoldable pub is_terminal : State → Bool
is_terminal delivered = true
is_terminal cancelled = true
is_terminal returned_to_origin = true
is_terminal _ = false

-- `s == StatePending`
abbrev pub is_pending : State → Bool
is_pending pending = true
is_pending _ = false

-- The states from which `Cancel` refuses at once.
abbrev pub is_with_rider : State → Bool
is_with_rider picked_up = true
is_with_rider in_transit = true
is_with_rider en_route_drop = true
is_with_rider delivered = true
is_with_rider _ = false

-- `s == t` on states, by their place in the list of constants.
abbrev pub place : State → ℕ
place pending = 0
place assigned = 1
place en_route_pickup = 2
place picked_up = 3
place in_transit = 4
place en_route_drop = 5
place delivered = 6
place failed = 7
place cancelled = 8
place returned_to_origin = 9

abbrev pub same_state : State → State → Bool
same_state s t = place s == place t

pub same_state_iff : (s t : State) → (same_state s t ≡ true) ↔ (s ≡ t)
same_state_iff s t = ground arith
