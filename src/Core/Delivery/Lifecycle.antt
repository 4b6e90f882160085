-- ===== src/Core/Delivery/Lifecycle.antt =====
-- What the methods of a delivery (internal/core/delivery) do, and what every history of calls keeps.
use dashfetchr.Base.{
  true, false, Option, none, some, ◌≡◌, refl, ◌↔◌, ◌⊎◌, String, List, [], ◌∷◌, arith,
}
use dashfetchr.Base.Time.{Time}
use dashfetchr.Core.Errors.{Error}
use dashfetchr.Core.Delivery.States.{
  State, pending, assigned, en_route_pickup, picked_up, in_transit, en_route_drop, delivered,
  failed, cancelled, returned_to_origin, allowed_transitions, is_terminal,
}
use dashfetchr.Core.Delivery.{
  Delivery, Rider, schedule, transition, assign_rider, mark_picked_up, mark_delivered, mark_failed,
  cancel,
}

-- `IsTerminal` returns true exactly for the states that no transition leaves.
pub is_terminal_iff :
    (s : State) → (is_terminal s ≡ true) ↔ ((t : State) → allowed_transitions s t ≡ false)
unfolding is_terminal allowed_transitions
is_terminal_iff pending = ((λ h. cc), λ h. cc (h assigned))
is_terminal_iff assigned = ((λ h. cc), λ h. cc (h failed))
is_terminal_iff en_route_pickup = ((λ h. cc), λ h. cc (h failed))
is_terminal_iff picked_up = ((λ h. cc), λ h. cc (h failed))
is_terminal_iff in_transit = ((λ h. cc), λ h. cc (h failed))
is_terminal_iff en_route_drop = ((λ h. cc), λ h. cc (h failed))
is_terminal_iff failed = ((λ h. cc), λ h. cc (h assigned))
is_terminal_iff delivered = ((λ h t. refl), λ h. refl)
is_terminal_iff cancelled = ((λ h t. refl), λ h. refl)
is_terminal_iff returned_to_origin = ((λ h t. refl), λ h. refl)

-- The calls that a client makes on a delivery, with the clock readings that they get.
pub data Call : Type 0 where
  schedule_call : (start end now later : Time) → Call
  assign_call : Rider → Time → Call
  picked_up_call : (at now : Time) → Call
  delivered_call : (at now : Time) → Call
  failed_call : String → Time → Call
  cancel_call : String → Time → Call
  transition_call : State → String → Time → Call

unfoldable pub perform : Call → Delivery → Delivery × Option Error
unfolding schedule assign_rider mark_picked_up mark_delivered mark_failed cancel transition
perform (schedule_call start end now later) d = schedule start end now later d
perform (assign_call r now) d = assign_rider r now d
perform (picked_up_call at now) d = mark_picked_up at now d
perform (delivered_call at now) d = mark_delivered at now d
perform (failed_call reason now) d = mark_failed reason now d
perform (cancel_call reason now) d = cancel reason now d
perform (transition_call to reason now) d = transition to reason now d

-- A client may go on after an error.
unfoldable pub history : List Call → Delivery → Delivery
history [] d = d
history (c ∷ cs) d = history cs (perform c d).0

-- A call that returns an error leaves the delivery as it was.
pub perform_error :
    (c : Call) (d : Delivery) {e : Error} → (perform c d).1 ≡ some e → (perform c d).0 ≡ d
unfolding perform
perform_error (schedule_call start end now later) d h = ground arith
perform_error (assign_call r now) d h = ground arith
perform_error (picked_up_call at now) d h = ground arith
perform_error (delivered_call at now) d h = ground arith
perform_error (failed_call reason now) d h = ground arith
perform_error (cancel_call reason now) d h = ground arith
perform_error (transition_call to reason now) d h = ground arith

-- `Cancel` succeeds exactly from the three states before the pickup: pending, assigned and en route to
-- the pickup.
pub cancel_iff :
    (reason : String) (now : Time) (d : Delivery)
    → ((cancel reason now d).1 ≡ none)
      ↔ ((d.state ≡ pending) ⊎ (d.state ≡ assigned) ⊎ (d.state ≡ en_route_pickup))
unfolding cancel allowed_transitions
cancel_iff reason now d = ground arith

-- Every change of state that a call makes is an edge of the table.
pub perform-allowed_transitions :
    (c : Call) (d : Delivery)
    → ((perform c d).0.state ≡ d.state) ⊎ (allowed_transitions d.state (perform c d).0.state ≡ true)
unfolding perform
perform-allowed_transitions (schedule_call start end now later) d = ground arith
perform-allowed_transitions (assign_call r now) d = ground arith
perform-allowed_transitions (picked_up_call at now) d = ground arith
perform-allowed_transitions (delivered_call at now) d = ground arith
perform-allowed_transitions (failed_call reason now) d = ground arith
perform-allowed_transitions (cancel_call reason now) d = ground arith
perform-allowed_transitions (transition_call to reason now) d = ground arith
