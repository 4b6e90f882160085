-- ===== src/Core/Errors.antt =====
-- The errors of all parts, each with what its message carries, and Go's pair of a value and an error
-- as a sum. `wrapped` is `fmt.Errorf("...: %w", err)`; `external` is an error of code that is not
-- part of the program.
use dashfetchr.Base.{
  ◌<>◌, ◌≡◌, ◌⊎◌, inl, inr, refl, ℕ, String, Bytes, Bool, true, false, Option, none, some,
}
use dashfetchr.Base.Uuid.{Uuid}
use dashfetchr.Core.Delivery.States as DeliveryStates
use dashfetchr.Core.Awb.States as AwbStates

pub data Error : Type 0 where
  -- ports
  not_found : Error
  invalid_request invalid_signature carrier_unavailable auth_failed shipment_not_found : Error
  already_cancelled rate_limited : Error
  -- core/awb
  package_zero package_too_heavy package_dimension : Error
  awb_transition : AwbStates.State → AwbStates.State → Error
  -- core/delivery
  leg_number carrier_required schedule_order schedule_past : Error
  cannot_cancel : DeliveryStates.State → Error
  delivery_transition : DeliveryStates.State → DeliveryStates.State → Error
  -- core/custody
  photo_required gps_required invalid_event : Error
  chain_broken : ℕ → String → Error
  tampered : ℕ → Uuid → Error
  -- core/routing
  no_eligible_carrier no_available_candidate : Error
  -- carrier
  nil_adapter missing_id : Error
  already_registered not_registered disabled : String → String → Error
  -- adapters/carriers/bolt: the last three are *transportError, *httpError and *wrappedErr
  recipient_required coordinates_required secret_missing signature_missing : Error
  signature_mismatch : Error
  transport_error : Error → Error
  http_error : (status : ℕ) → (body : Bytes) → Error
  wrapped_err : Error → (msg : String) → Error
  -- app/dispatch
  not_pending : Uuid → DeliveryStates.State → Error
  wrapped : String → Error → Error
  external : String → Error

pub data Result {ℓ} (A : Type ℓ) : Type ℓ where
  ok : A → Result A
  err : Error → Result A

infixl 5 ◌>>=◌ ◌>>◌
abbrev pub ◌>>=◌ {ℓ κ} : {A : Type ℓ} {B : Type κ} → Result A → (A → Result B) → Result B
ok a >>= f = f a
err e >>= f = err e

abbrev pub ◌>>◌ {ℓ κ} : {A : Type ℓ} {B : Type κ} → Result A → Result B → Result B
m >> k = m >>= λ _. k

-- `if bad { return ..., e }`
abbrev pub refuse_if : Bool → Error → Result (Unit {0})
refuse_if true e = err e
refuse_if false e = ok tt

-- `if err := ...; err != nil { return ..., err }`
abbrev pub check : Option Error → Result (Unit {0})
check none = ok tt
check (some e) = err e

-- `if err != nil { return fmt.Errorf(msg, err) }`
abbrev pub wrap {ℓ} : {A : Type ℓ} → String → Result A → Result A
wrap msg (ok a) = ok a
wrap msg (err e) = err (wrapped msg e)

-- errors.Is(err, ports.ErrNotFound)
unfoldable pub is_not_found : Error → Bool
is_not_found not_found = true
is_not_found (wrapped msg e) = is_not_found e
is_not_found (transport_error e) = is_not_found e
is_not_found (wrapped_err e msg) = is_not_found e
is_not_found _ = false

abbrev prefixed : String → Option String → Option String
prefixed msg none = none
prefixed msg (some s) = some (msg <> ": " <> s)

-- err.Error(), where the text holds no state, number or identifier.
unfoldable pub error_text : Error → Option String
error_text not_found = some "not found"
error_text invalid_request = some "carrier: invalid request"
error_text invalid_signature = some "carrier: invalid webhook signature"
error_text carrier_unavailable = some "carrier: unavailable"
error_text auth_failed = some "carrier: authentication failed"
error_text shipment_not_found = some "carrier: shipment not found"
error_text already_cancelled = some "carrier: shipment already cancelled"
error_text rate_limited = some "carrier: rate limited"
error_text package_zero = some "awb: package weight must be > 0"
error_text package_too_heavy = some "awb: package weight exceeds limit (50kg)"
error_text package_dimension = some "awb: package dimension exceeds limit (100cm)"
error_text leg_number = some "delivery: leg must be >= 1"
error_text carrier_required = some "delivery: carrier ID and version required"
error_text schedule_order = some "delivery: schedule end must be after start"
error_text schedule_past = some "delivery: schedule cannot be in the past"
error_text photo_required = some "custody: event type requires photo"
error_text gps_required = some "custody: event type requires GPS location"
error_text invalid_event = some "custody: invalid event"
error_text no_eligible_carrier = some "routing: no eligible carrier"
error_text no_available_candidate = some "routing: no available candidate"
error_text nil_adapter = some "carrier: nil adapter"
error_text missing_id = some "carrier: missing capabilities.ID"
error_text recipient_required = some "bolt: recipient phone required"
error_text coordinates_required = some "bolt: location requires coordinates"
error_text secret_missing = some "bolt: webhook secret not configured"
error_text signature_missing = some "bolt: missing X-Bolt-Signature header"
error_text signature_mismatch = some "bolt: signature mismatch"
error_text (transport_error x) = prefixed "bolt transport" (error_text x)
error_text (wrapped_err x msg) = prefixed msg (error_text x)
error_text (wrapped msg x) = prefixed msg (error_text x)
error_text (external s) = some s
error_text _ = none

pub Result-cases {ℓ} :
    {A : Type ℓ} (r : Result A) → ((a : A) × (r ≡ ok a)) ⊎ ((e : Error) × (r ≡ err e))
Result-cases (ok a) = inl (a, refl)
Result-cases (err e) = inr (e, refl)

pub ok-injective {ℓ} : {A : Type ℓ} {a b : A} → ok a ≡ ok b → a ≡ b
ok-injective h = cc

pub err-injective {ℓ} : {A : Type ℓ} {d e : Error} → ◌≡◌ {A = Result A} (err d) (err e) → d ≡ e
err-injective h = cc
