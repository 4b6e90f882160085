-- ===== src/App/Evidence.antt =====
-- The evidence behind the states of the stored deliveries, over the custody service and the webhooks
-- (internal/app/custodyapp, internal/app/webhook).
pub mod Stores
pub mod Webhooks
pub mod Bookings
use dashfetchr.Base.{
  ◌⊎◌, ℕ, Bool, true, false, not, ◌&&◌, ◌||◌, Option, none, some, ◌≡◌, ◌≢◌, refl, sym, ap, ◌∙◌,
  List, [], ◌∷◌, ◌++◌, arith, if◌then◌else◌, Option-cases, inl, inr,
}
use dashfetchr.Base.Time.{Time}
use dashfetchr.Core.Delivery.States.{State, delivered, allowed_transitions}
use dashfetchr.Core.Delivery.{Delivery, transition, mark_picked_up, mark_delivered, mark_failed}
use dashfetchr.Core.Delivery.Histories.{is_aboard}
use dashfetchr.Core.Custody.{
  EventType, Event, package_picked_up, package_delivered, validate, is_empty, is_none,
}
use dashfetchr.App.Custodyapp.{apply_delivery_transition}

abbrev pub is_pickup : EventType → Bool
is_pickup package_picked_up = true
is_pickup _ = false

abbrev pub is_drop : EventType → Bool
is_drop package_delivered = true
is_drop _ = false

abbrev pub is_delivered : State → Bool
is_delivered delivered = true
is_delivered _ = false

-- Whether the list has an event of the kind, with a photo and a location.
unfoldable pub has_proof : (EventType → Bool) → List Event → Bool
has_proof kind [] = false
has_proof kind (e ∷ es) =
    kind e.type && (not (is_empty e.photos) && not (is_none e.location)) || has_proof kind es

-- A delivery that is picked up or further has a pickup in its ledger, with a photo and a location, and
-- a time of pickup; one that is delivered has the same of the drop.
pub record IsEvidenced (del : Delivery) (es : List Event) : Type 0 where
  pub pickup : is_aboard del.state ≡ true → has_proof is_pickup es ≡ true
  pub pickup_time : is_aboard del.state ≡ true → is_none del.actual_pickup_at ≡ false
  pub drop : is_delivered del.state ≡ true → has_proof is_drop es ≡ true
  pub drop_time : is_delivered del.state ≡ true → is_none del.actual_drop_at ≡ false

pub has_proof-append :
    (kind : EventType → Bool) (es fs : List Event)
    → has_proof kind (es ++ fs) ≡ (has_proof kind es || has_proof kind fs)
unfolding has_proof
has_proof-append kind [] fs = refl
has_proof-append kind (e ∷ es) fs = ground (arith, has_proof-append kind es fs)

-- More events leave the evidence as it is.
pub append-IsEvidenced :
    (del : Delivery) (es fs : List Event) → IsEvidenced del es → IsEvidenced del (es ++ fs)
append-IsEvidenced del es fs v = record {
  pickup = λ h. ground (arith, has_proof-append is_pickup es fs, v.pickup h);
  pickup_time = v.pickup_time;
  drop = λ h. ground (arith, has_proof-append is_drop es fs, v.drop h);
  drop_time = v.drop_time;
}

pickup_step :
    (t : EventType) (at now : Time) (del : Delivery) {k : Delivery}
    → apply_delivery_transition t at now del ≡ (k, none)
    → is_aboard k.state ≡ true
    → ((is_pickup t ≡ true) × (is_none k.actual_pickup_at ≡ false))
      ⊎ ((is_aboard del.state ≡ true) × (k.actual_pickup_at ≡ del.actual_pickup_at))
unfolding apply_delivery_transition transition mark_picked_up mark_delivered mark_failed
    allowed_transitions
pickup_step t at now del h a = ground arith

drop_step :
    (t : EventType) (at now : Time) (del : Delivery) {k : Delivery}
    → apply_delivery_transition t at now del ≡ (k, none)
    → is_delivered k.state ≡ true
    → ((is_drop t ≡ true) × (is_none k.actual_drop_at ≡ false))
      ⊎ ((is_delivered del.state ≡ true) × (k.actual_drop_at ≡ del.actual_drop_at))
unfolding apply_delivery_transition transition mark_picked_up mark_delivered mark_failed
    allowed_transitions
drop_step t at now del h a = ground arith

-- An event that was validated is proof of its own kind.
pickup_proof :
    (e : Event) → validate e ≡ none → is_pickup e.type ≡ true → has_proof is_pickup (e ∷ []) ≡ true
unfolding validate has_proof
pickup_proof e h t = ground arith

drop_proof :
    (e : Event) → validate e ≡ none → is_drop e.type ≡ true → has_proof is_drop (e ∷ []) ≡ true
unfolding validate has_proof
drop_proof e h t = ground arith

module _ (at now : Time) (e : Event) (del k : Delivery) (es : List Event) (h : validate e ≡ none)
    (v : IsEvidenced del es) (step : apply_delivery_transition e.type at now del ≡ (k, none)) where
  pickup_evidence :
      is_aboard k.state ≡ true
      → (has_proof is_pickup (es ++ e ∷ []) ≡ true) × (is_none k.actual_pickup_at ≡ false)
  pickup_evidence a = elim (pickup_step e.type at now del step a) [
    | inl (t, n) ↦ (ground (arith, has_proof-append is_pickup es (e ∷ []), pickup_proof e h t), n)
    | inr (b, same) ↦ (
      ground (arith, has_proof-append is_pickup es (e ∷ []), v.pickup b),
      ap (λ (o : Option Time). is_none o) same ∙ v.pickup_time b,
    )
  ]

  drop_evidence :
      is_delivered k.state ≡ true
      → (has_proof is_drop (es ++ e ∷ []) ≡ true) × (is_none k.actual_drop_at ≡ false)
  drop_evidence a = elim (drop_step e.type at now del step a) [
    | inl (t, n) ↦ (ground (arith, has_proof-append is_drop es (e ∷ []), drop_proof e h t), n)
    | inr (b, same) ↦ (
      ground (arith, has_proof-append is_drop es (e ∷ []), v.drop b),
      ap (λ (o : Option Time). is_none o) same ∙ v.drop_time b,
    )
  ]

  -- An accepted transition needs no evidence but that of its own event.
  pub apply-IsEvidenced : IsEvidenced k (es ++ e ∷ [])
  apply-IsEvidenced = record {
    pickup = λ a. (pickup_evidence a).0;
    pickup_time = λ a. (pickup_evidence a).1;
    drop = λ a. (drop_evidence a).0;
    drop_time = λ a. (drop_evidence a).1;
  }
