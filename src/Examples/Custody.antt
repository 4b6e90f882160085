-- ===== src/Examples/Custody.antt =====
-- A delivery from the booking to the customer's door, with its evidence (internal/app).
use dashfetchr.Base.{true, false, none, some, ◌≡◌, refl, List, arith, ap}
use dashfetchr.Core.Errors.{ok, delivery_transition}
use dashfetchr.Core.Delivery.States.{
  assigned, en_route_pickup, picked_up, in_transit, delivered, pending,
}
use dashfetchr.Core.Delivery.{Delivery}
use dashfetchr.Core.Custody.{
  Event, is_none, rider_assigned, rider_arrived_at_locker, package_picked_up, rider_in_transit,
  package_delivered, validate,
}
use dashfetchr.Infra.Memory.DeliveryRepo.{get_by_id, save}
use dashfetchr.App.Store.{Store}
use dashfetchr.App.Custodyapp.{
  event_of, Outcome, record_custody, list_events, verify_chain, recorded, apply_delivery_transition,
}
use dashfetchr.App.Custodyapp.Effects.{run_late, IsGrown, record_custody_ok, record_custody_late}
use dashfetchr.App.Evidence.{has_proof, is_pickup, is_drop}
use dashfetchr.App.Journeys.{
  verify_chain_of_reachable, pickup_evidence_of_reachable, drop_evidence_of_reachable,
}
use dashfetchr.Examples.Fixtures.{evening, tally}
use dashfetchr.Examples.Services.{
  ledger_records, s1, s2, s3, s4, s5, s6, reading, input, booked_leg, s1-IsUnused, s2-IsUnused,
  s3-IsUnused, s4-IsUnused, s5-IsUnused, s4-IsReachable, s6-IsReachable, s1-found, goes_to,
}

abbrev leg2 : Delivery
leg2 = record booked_leg { state = assigned; updated_at = evening }

abbrev leg3 : Delivery
leg3 = record leg2 { state = en_route_pickup }

abbrev leg4 : Delivery
leg4 = record leg3 { state = picked_up; actual_pickup_at = some evening }

abbrev leg5 : Delivery
leg5 = record leg4 { state = in_transit }

abbrev leg6 : Delivery
leg6 = record leg5 { state = delivered; actual_drop_at = some evening }

step2 :
    (e : Event) × ((record_custody tally (reading 101) (input rider_assigned) s1).1
      ≡ recorded e none)
    × (get_by_id 7 s2.deliveries ≡ ok leg2)
unfolding validate apply_delivery_transition dashfetchr.Core.Delivery.transition
    dashfetchr.Core.Delivery.States.allowed_transitions
step2 = goes_to 101 rider_assigned s1 booked_leg leg2 (s1-IsUnused 101) refl s1-found refl refl

step3 :
    (e : Event) × ((record_custody tally (reading 102) (input rider_arrived_at_locker) s2).1
      ≡ recorded e none)
    × (get_by_id 7 s3.deliveries ≡ ok leg3)
unfolding validate apply_delivery_transition dashfetchr.Core.Delivery.transition
    dashfetchr.Core.Delivery.States.allowed_transitions
step3 =
    goes_to 102 rider_arrived_at_locker s2 leg2 leg3 (s2-IsUnused 102 (omega arith)) refl step2.2
      refl refl

step4 :
    (e : Event) × ((record_custody tally (reading 103) (input package_picked_up) s3).1
      ≡ recorded e none)
    × (get_by_id 7 s4.deliveries ≡ ok leg4)
unfolding validate apply_delivery_transition dashfetchr.Core.Delivery.mark_picked_up
    dashfetchr.Core.Delivery.States.allowed_transitions
step4 =
    goes_to 103 package_picked_up s3 leg3 leg4 (s3-IsUnused 103 (omega arith)) refl step3.2 refl
      refl

step5 :
    (e : Event) × ((record_custody tally (reading 104) (input rider_in_transit) s4).1
      ≡ recorded e none)
    × (get_by_id 7 s5.deliveries ≡ ok leg5)
unfolding validate apply_delivery_transition dashfetchr.Core.Delivery.transition
    dashfetchr.Core.Delivery.States.allowed_transitions
step5 =
    goes_to 104 rider_in_transit s4 leg4 leg5 (s4-IsUnused 104 (omega arith)) refl step4.2 refl refl

step6 :
    (e : Event) × ((record_custody tally (reading 105) (input package_delivered) s5).1
      ≡ recorded e none)
    × (get_by_id 7 s6.deliveries ≡ ok leg6)
unfolding validate apply_delivery_transition dashfetchr.Core.Delivery.mark_delivered
    dashfetchr.Core.Delivery.States.allowed_transitions
step6 =
    goes_to 105 package_delivered s5 leg5 leg6 (s5-IsUnused 105 (omega arith)) refl step5.2 refl
      refl

verify_chain_of_reachable_example : verify_chain tally 7 s6 ≡ none
verify_chain_of_reachable_example = verify_chain_of_reachable tally 7 s6-IsReachable

pickup_evidence_of_reachable_example :
    (es : List Event) × (list_events tally 7 s4 ≡ ok es)
    × (has_proof is_pickup es ≡ true)
    × (is_none leg4.actual_pickup_at ≡ false)
pickup_evidence_of_reachable_example =
    pickup_evidence_of_reachable tally {del = leg4} 7 s4-IsReachable step4.2 refl

drop_evidence_of_reachable_example :
    (es : List Event) × (list_events tally 7 s6 ≡ ok es)
    × (has_proof is_drop es ≡ true)
    × (is_none leg6.actual_drop_at ≡ false)
drop_evidence_of_reachable_example =
    drop_evidence_of_reachable tally {del = leg6} 7 s6-IsReachable step6.2 refl

record_custody_ok_example :
    (del : Delivery) × (k : Delivery) × (get_by_id 7 s3.deliveries ≡ ok del)
    × (validate step4.0 ≡ none)
    × (step4.0.type ≡ package_picked_up)
    × (apply_delivery_transition package_picked_up evening evening del ≡ (k, none))
    × (s4.deliveries ≡ save k s3.deliveries)
    × IsGrown s3.custody s4.custody 7 step4.0
record_custody_ok_example =
    record_custody_ok tally (reading 103) (input package_picked_up) s3
      (s3-IsUnused 103 (omega arith)) step4.1

-- The rider reports the drop of a delivery that was never picked up.
too_early :
    (e : Event) × ((record_custody tally (reading 101) (input package_delivered) s1).1
      ≡ recorded e (some (delivery_transition pending delivered)))
unfolding validate apply_delivery_transition dashfetchr.Core.Delivery.mark_delivered
    dashfetchr.Core.Delivery.States.allowed_transitions
too_early =
    let (r, l) =
      ledger_records 101 (event_of (reading 101) (input package_delivered)) s1.custody refl in
    (
      r,
      ap (λ (p : Store × Outcome). p.1)
          (run_late tally (reading 101) (input package_delivered) s1 (s1-IsUnused 101) booked_leg
            s1-found l refl),
    )

record_custody_late_example :
    (del : Delivery) × (get_by_id 7 s1.deliveries ≡ ok del)
    × ((apply_delivery_transition package_delivered evening evening del).1
        ≡ some (delivery_transition pending delivered))
    × ((record_custody tally (reading 101) (input package_delivered) s1).0.deliveries
        ≡ s1.deliveries)
    × IsGrown s1.custody
        (record_custody tally (reading 101) (input package_delivered) s1).0.custody
        7
        too_early.0
record_custody_late_example =
    record_custody_late tally (reading 101) (input package_delivered) s1 (s1-IsUnused 101)
      too_early.1
