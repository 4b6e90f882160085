-- ===== src/Examples/Deliveries.antt =====
-- Runs of a delivery (internal/core/delivery).
use dashfetchr.Base.{◌+◌, ◌*◌, ◌≤◌, true, ◌≡◌, refl, ◌⊎◌, List, [], ◌∷◌, arith}
use dashfetchr.Core.Delivery.States.{
  State, pending, assigned, en_route_pickup, picked_up, in_transit, delivered, failed,
  allowed_transitions,
}
use dashfetchr.Core.Delivery.{Delivery, Rider, cancel}
use dashfetchr.Core.Delivery.Lifecycle.{
  Call, assign_call, transition_call, picked_up_call, delivered_call, failed_call, cancel_call,
  perform, history, perform-allowed_transitions,
}
use dashfetchr.Core.Delivery.Histories.{
  IsValid, history-IsValid, moves, retries, moves-le-retries, history-is_terminal, visits_pickup,
  visits_pickup_of_is_aboard,
}
use dashfetchr.Examples.Fixtures.{noon, evening, delivery_in, waiting}

abbrev rider : Rider
rider = record { id = "R1"; name = "Ana"; phone = "07"; vehicle = "bike" }

-- A day with a failed attempt before the pickup.
abbrev day : List Call
day =
    assign_call rider noon
    ∷ failed_call "flat tyre" noon
    ∷ assign_call rider noon
    ∷ transition_call en_route_pickup "" noon
    ∷ picked_up_call noon noon
    ∷ transition_call in_transit "" noon
    ∷ delivered_call evening evening
    ∷ []

waiting-IsValid : IsValid waiting
waiting-IsValid = record { leg = ground arith; carrier = refl; version = refl; window = tt }

visits_pickup_of_is_aboard_example : visits_pickup day waiting ≡ true
unfolding history perform allowed_transitions
visits_pickup_of_is_aboard_example = visits_pickup_of_is_aboard day waiting refl refl

history-is_terminal_example : (history day (delivery_in delivered)).state ≡ delivered
unfolding history dashfetchr.Core.Delivery.States.is_terminal
history-is_terminal_example = history-is_terminal day (delivery_in delivered) refl

moves-le-retries_example : moves day waiting ≤ 7 + 6 * retries day waiting
moves-le-retries_example = moves-le-retries day waiting

history-IsValid_example : IsValid (history day waiting)
history-IsValid_example = history-IsValid day waiting waiting-IsValid

perform-allowed_transitions_example :
    ((perform (cancel_call "late" noon) waiting).0.state ≡ pending)
    ⊎ (allowed_transitions pending (perform (cancel_call "late" noon) waiting).0.state ≡ true)
perform-allowed_transitions_example = perform-allowed_transitions (cancel_call "late" noon) waiting
