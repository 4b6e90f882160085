-- ===== src/Core/Custody/Policy.antt =====
-- What `Validate` (internal/core/custody/event.go) demands of an event.
use dashfetchr.Base.{true, false, none, ◌≡◌, ◌≢◌, ◌↔◌, [], arith, eq_iff}
use dashfetchr.Base.Time.{is_zero}
use dashfetchr.Base.Uuid.{uuid_nil}
use dashfetchr.Core.Custody.{
  EventType, other, Event, requires_photo, requires_gps, is_blank, validate,
}

-- The demands, as the policy states them.
pub record IsAcceptable (e : Event) : Type 0 where
  pub type : e.type ≢ other ""
  pub delivery : e.delivery_id ≢ uuid_nil
  pub time : is_zero e.occurred_at ≡ false
  pub photo : requires_photo e.type ≡ true → e.photos ≢ []
  pub gps : requires_gps e.type ≡ true → e.location ≢ none

is_blank_iff : (t : EventType) → (is_blank t ≡ true) ↔ (t ≡ other "")
is_blank_iff (other s) = ground (arith, eq_iff s "")
is_blank_iff _ = ground arith

acceptable : (e : Event) → validate e ≡ none → IsAcceptable e
unfolding validate
acceptable e h = record {
  type = ground (arith, is_blank_iff e.type);
  delivery = ground arith;
  time = ground arith;
  photo = ground arith;
  gps = ground arith;
}

-- `Validate` accepts an event exactly if it has a type, a delivery and a time, and the photo and the
-- location that its type requires.
pub validate_iff : (e : Event) → (validate e ≡ none) ↔ IsAcceptable e
unfolding validate
validate_iff e = (
  acceptable e,
  λ a. ground (arith, is_blank_iff e.type, a.type, a.delivery, a.time, a.photo, a.gps),
)

-- An event type that requires a photo requires a location too.
pub requires_gps_of_requires_photo :
    (t : EventType) → requires_photo t ≡ true → requires_gps t ≡ true
unfolding requires_photo requires_gps
requires_gps_of_requires_photo t h = ground arith
