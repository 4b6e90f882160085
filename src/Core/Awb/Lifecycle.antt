-- ===== src/Core/Awb/Lifecycle.antt =====
-- The parcel's state machine (internal/core/awb): what every history of transitions goes through.
use dashfetchr.Base.{
  Option-cases, Bool, true, false, ◌||◌, none, some, ◌≡◌, refl, String, List, [], ◌∷◌, arith, ◌⊎◌,
  inl, inr, ◌↔◌,
}
use dashfetchr.Base.Time.{Time, utc}
use dashfetchr.Base.Float64.{lt_f, le_f, whole, is_nan, le_f-eq-not-lt_f, whole-is_nan}
use dashfetchr.Core.Awb.States.{
  cancelled, State, created, dispatched, in_transit, delivered, allowed_transitions,
}
use dashfetchr.Core.Awb.{Awb, initial, Package, validate_package, new, transition}
use dashfetchr.Core.Errors.{Error, Result, ok, err}
use dashfetchr.Core.Awb.Internal.{Entropy, generate_internal_awb, internal_of}
use dashfetchr.Base.Uuid.{Uuid}

-- A request to move the parcel, with its reason and the clock reading.
pub record Request : Type 0 where
  pub to : State
  pub reason : String
  pub now : Time

unfoldable pub history : List Request → Awb → Awb
history [] a = a
history (r ∷ rs) a = history rs (transition r.to r.reason r.now a).0

settled :
    (r : Request) (a : Awb)
    → (a.state ≡ delivered) ⊎ (a.state ≡ cancelled)
    → (transition r.to r.reason r.now a).0 ≡ a
unfolding transition allowed_transitions
settled r a h = ground arith

abbrev pub is_moving : State → Bool
is_moving in_transit = true
is_moving delivered = true
is_moving _ = false

abbrev pub is_dispatched : State → Bool
is_dispatched dispatched = true
is_dispatched _ = false

-- Whether the parcel is dispatched at some point of the history.
unfoldable pub visits_dispatched : List Request → Awb → Bool
visits_dispatched [] a = is_dispatched a.state
visits_dispatched (r ∷ rs) a =
    is_dispatched a.state || visits_dispatched rs (transition r.to r.reason r.now a).0

leave :
    (r : Request) (a : Awb)
    → is_moving a.state ≡ false
    → (is_dispatched a.state ≡ true)
      ⊎ (is_moving (transition r.to r.reason r.now a).0.state ≡ false)
unfolding transition allowed_transitions
leave r a h = ground arith

-- No history takes a parcel that is neither in transit nor delivered to one of these states without
-- its being dispatched at some point.
pub visits_dispatched_of_is_moving :
    (rs : List Request) (a : Awb)
    → is_moving a.state ≡ false
    → is_moving (history rs a).state ≡ true
    → visits_dispatched rs a ≡ true
unfolding visits_dispatched history
visits_dispatched_of_is_moving [] a h k = cc
visits_dispatched_of_is_moving (r ∷ rs) a h k = elim (leave r a h) [
  | inl p ↦ rw p
  | inr q ↦
      ground (arith, visits_dispatched_of_is_moving rs (transition r.to r.reason r.now a).0 q k)
]

-- No history of requests moves a parcel that is delivered or cancelled.
pub history_settled :
    (rs : List Request) (a : Awb) → (a.state ≡ delivered) ⊎ (a.state ≡ cancelled) → history rs a ≡ a
unfolding history
history_settled [] a h = refl
history_settled (r ∷ rs) a h = let same = settled r a h in rw same (history_settled rs a h)

-- A package whose numbers are not NaN is accepted exactly if its weight is above 0 kg and at most
-- 50 kg, and no side is longer than 100 cm.
pub validate_package_iff :
    (p : Package)
    → is_nan p.weight_kg ≡ false
    → is_nan p.length_cm ≡ false
    → is_nan p.width_cm ≡ false
    → is_nan p.height_cm ≡ false
    → (validate_package p ≡ none) ↔ (
        (lt_f (whole 0) p.weight_kg ≡ true)
        × (le_f p.weight_kg (whole 50) ≡ true)
        × (le_f p.length_cm (whole 100) ≡ true)
        × (le_f p.width_cm (whole 100) ≡ true)
        × (le_f p.height_cm (whole 100) ≡ true))
unfolding validate_package
validate_package_iff p w l d h = ground (
  arith,
  le_f-eq-not-lt_f p.weight_kg (whole 0) w (whole-is_nan 0),
  le_f-eq-not-lt_f p.weight_kg (whole 50) w (whole-is_nan 50),
  le_f-eq-not-lt_f p.length_cm (whole 100) l (whole-is_nan 100),
  le_f-eq-not-lt_f p.width_cm (whole 100) d (whole-is_nan 100),
  le_f-eq-not-lt_f p.height_cm (whole 100) h (whole-is_nan 100),
)

new_checked :
    (id : Uuid) (now : Time) (retailer_id : Uuid) (pkg : Package)
    → validate_package pkg ≡ none
    → (entropy : Result Entropy)
    → ((e : Error) × (new id now entropy retailer_id pkg ≡ err e)
        × ((validate_package pkg ≡ some e) ⊎ (entropy ≡ err e)))
      ⊎ ((a : Awb) × (new id now entropy retailer_id pkg ≡ ok a)
          × (validate_package pkg ≡ none)
          × (a.state ≡ created)
          × (a.pkg ≡ pkg)
          × (a.retailer_id ≡ retailer_id)
          × (a.external_awbs ≡ []))
unfolding new generate_internal_awb
new_checked id now retailer_id pkg h (err e) = inl (e, rw h refl, inr refl)
new_checked id now retailer_id pkg h (ok b) = inr (
  initial id (internal_of b (utc now)) (utc now) retailer_id pkg,
  rw h refl,
  h,
  refl,
  refl,
  refl,
  refl,
)

-- `New` fails with the error of the package's check or of the random source, and otherwise returns a
-- parcel in the created state that carries the package and the retailer, and no tracking number.
pub new_lem :
    (id : Uuid) (now : Time) (entropy : Result Entropy) (retailer_id : Uuid) (pkg : Package)
    → ((e : Error) × (new id now entropy retailer_id pkg ≡ err e)
        × ((validate_package pkg ≡ some e) ⊎ (entropy ≡ err e)))
      ⊎ ((a : Awb) × (new id now entropy retailer_id pkg ≡ ok a)
          × (validate_package pkg ≡ none)
          × (a.state ≡ created)
          × (a.pkg ≡ pkg)
          × (a.retailer_id ≡ retailer_id)
          × (a.external_awbs ≡ []))
unfolding new generate_internal_awb
new_lem id now entropy retailer_id pkg = elim (Option-cases (validate_package pkg)) [
  | inr (e, h) ↦ inl (e, rw h refl, inl h)
  | inl h ↦ new_checked id now retailer_id pkg h entropy
]
