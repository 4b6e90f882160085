-- ===== src/Core/Awb.antt =====
-- internal/core/awb/awb.go: the parcel and the carriers' tracking numbers. A method on `*AWB` returns
-- the new value; `time.Now()`, `uuid.New()` and what `rand.Read` gives are arguments.
pub mod States
pub mod Internal
pub mod Encoding
pub mod Refs
pub mod Lifecycle
use dashfetchr.Base.{
  Bytes, Bool, true, false, not, ◌||◌, ◌&&◌, Option, none, some, String, List, [], ◌∷◌, ◌++◌,
  str_eq, if◌then◌else◌,
}
use dashfetchr.Base.Int64.{ℤ}
use dashfetchr.Base.Float64.{Float64, lt_f, le_f, whole}
use dashfetchr.Base.Time.{Time, utc}
use dashfetchr.Base.Uuid.{Uuid}
use dashfetchr.Core.Errors.{
  Error, package_zero, package_too_heavy, package_dimension, awb_transition, Result, ok, err, ◌>>=◌,
  ◌>>◌, check,
}
use States.{State, created, allowed_transitions}
use Internal.{Entropy, generate_internal_awb}

pub data Role : Type 0 where
  first_mile mid_mile last_mile : Role

pub record ExternalRef : Type 0 where
  pub carrier : String
  pub awb : String
  pub role : Role

pub record Package : Type 0 where
  pub weight_kg : Float64
  pub length_cm : Float64
  pub width_cm : Float64
  pub height_cm : Float64
  pub declared_value_minor : ℤ
  pub declared_value_ccy : String
  pub description : String
  pub fragile : Bool

pub record Awb : Type 0 where
  pub id : Uuid
  pub internal_awb : Bytes
  pub retailer_id : Uuid
  pub customer_id : Option Uuid
  pub external_awbs : List ExternalRef
  pub pkg : Package
  pub state : State
  pub state_reason : String
  pub created_at : Time
  pub updated_at : Time

-- The loop over the three dimensions.
exceeds : List Float64 → Option Error
exceeds [] = none
exceeds (d ∷ ds) = if lt_f (whole 100) d then some package_dimension else exceeds ds

unfoldable pub validate_package : Package → Option Error
unfolding exceeds
validate_package p =
    if le_f p.weight_kg (whole 0)
    then some package_zero
    else if lt_f (whole 50) p.weight_kg
    then some package_too_heavy
    else exceeds (p.length_cm ∷ p.width_cm ∷ p.height_cm ∷ [])

-- The struct that `New` returns.
abbrev pub initial : Uuid → Bytes → Time → Uuid → Package → Awb
initial id internal now retailer_id pkg = record {
  id = id;
  internal_awb = internal;
  retailer_id = retailer_id;
  customer_id = none;
  external_awbs = [];
  pkg = pkg;
  state = created;
  state_reason = "";
  created_at = now;
  updated_at = now;
}

unfoldable pub new :
    (id : Uuid) (now : Time) (entropy : Result Entropy) (retailer_id : Uuid) (pkg : Package)
    → Result Awb
new id now entropy retailer_id pkg = do
  check (validate_package pkg)
  internal ← generate_internal_awb entropy (utc now)
  ok (initial id internal (utc now) retailer_id pkg)

-- Whether the loop of `AttachExternal` returns early.
unfoldable pub is_attached : String → String → List ExternalRef → Bool
is_attached carrier awb [] = false
is_attached carrier awb (r ∷ rs) =
    str_eq r.carrier carrier && str_eq r.awb awb || is_attached carrier awb rs

unfoldable pub attach_external : (carrier external_awb : String) → Role → Time → Awb → Awb
attach_external carrier external_awb role now a =
    if is_attached carrier external_awb a.external_awbs then a else record a {
      external_awbs =
          a.external_awbs ++ record { carrier = carrier; awb = external_awb; role = role } ∷ [];
      updated_at = utc now;
    }

unfoldable pub find_external : String → List ExternalRef → Option ExternalRef
find_external carrier [] = none
find_external carrier (r ∷ rs) =
    if str_eq r.carrier carrier then some r else find_external carrier rs

unfoldable pub transition : State → String → Time → Awb → Awb × Option Error
transition to reason now a =
    if not (allowed_transitions a.state to)
    then (a, some (awb_transition a.state to))
    else (record a { state = to; state_reason = reason; updated_at = utc now }, none)
