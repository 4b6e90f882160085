-- ===== src/Examples/Parcels.antt =====
-- Runs of a parcel (internal/core/awb).
use dashfetchr.Base.{true, none, ◌≡◌, refl, ◌↔◌, List, [], ◌∷◌, arith}
use dashfetchr.Base.Float64.{lt_f, le_f, whole}
use dashfetchr.Core.Awb.States.{State, at_locker, dispatched, in_transit}
use dashfetchr.Core.Awb.{Awb, mid_mile, last_mile, attach_external, validate_package}
use dashfetchr.Core.Awb.Encoding.{IsBytes}
use dashfetchr.Core.Awb.Refs.{attach_external_again}
use dashfetchr.Core.Awb.Lifecycle.{Request, validate_package_iff}
use dashfetchr.Examples.Fixtures.{noon, evening, parcel, box, seed}

abbrev ask : State → Request
ask s = record { to = s; reason = ""; now = noon }

abbrev trip : List Request
trip = ask dispatched ∷ ask at_locker ∷ ask in_transit ∷ []

abbrev tracked : Awb
tracked = record parcel {
  external_awbs = record { carrier = "fan"; awb = "F-1"; role = mid_mile } ∷ [];
}

seed-IsBytes : IsBytes seed
seed-IsBytes = record {
  b0 = ground arith;
  b1 = ground arith;
  b2 = ground arith;
  b3 = ground arith;
  b4 = ground arith;
}

attach_external_again_example :
    attach_external "fan" "F-2" mid_mile evening
      (attach_external "fan" "F-2" last_mile noon tracked)
    ≡ attach_external "fan" "F-2" last_mile noon tracked
attach_external_again_example =
    attach_external_again "fan" "F-2" last_mile noon tracked mid_mile evening

validate_package_iff_example : (validate_package box ≡ none) ↔ (
    (lt_f (whole 0) (whole 2) ≡ true)
    × (le_f (whole 2) (whole 50) ≡ true)
    × (le_f (whole 30) (whole 100) ≡ true)
    × (le_f (whole 20) (whole 100) ≡ true)
    × (le_f (whole 10) (whole 100) ≡ true))
unfolding whole
validate_package_iff_example = validate_package_iff box refl refl refl refl
