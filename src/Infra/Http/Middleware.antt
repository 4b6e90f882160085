-- ===== src/Infra/Http/Middleware.antt =====
-- internal/infra/http/middleware: who may call. Request identifiers and logging are left out. `sha256_hex` is
-- the hex digest of SHA-256.
use dashfetchr.Base.{
  false, Bool, not, ◌||◌, Option, none, some, String, str_eq, cut_prefix, trim_space, cut,
  if◌then◌else◌,
}
use dashfetchr.Base.Maps.{Map, string_eq, lookup}
use dashfetchr.Core.Errors.{Result, ok, err, is_not_found}
use dashfetchr.Core.Retailer.{Retailer}
use dashfetchr.Auth.{Context, hash_api_key, with_retailer, with_carrier_id}
use dashfetchr.App.Store.{Store}
use dashfetchr.Infra.Http.Message.{Request, Response, Handler, header, error, literal, plain, json}

abbrev bearer : Option String → String → String
bearer none other = trim_space other
bearer (some rest) other = trim_space rest

-- An empty Authorization header has no prefix, as a missing one.
unfoldable pub api_key_from_request : Request → String
unfolding header
api_key_from_request r =
    bearer (cut_prefix "Bearer " (header r "Authorization")) (header r "X-API-Key")

-- From the lookup's answer on.
admit : Handler → Context → Request → Store → Result Retailer → Store × Response
unfolding error with_retailer
admit next ctx r s (err x) =
    if is_not_found x
    then (s, error 401 "invalid_api_key" (literal "unknown API key"))
    else (s, error 500 "auth_error" (literal "could not verify API key"))
admit next ctx r s (ok ret) =
    if not ret.is_active
    then (s, error 403 "retailer_inactive" (literal "retailer is deactivated"))
    else next (with_retailer ctx ret) r s

unfoldable pub require_retailer : (String → Result Retailer) → (String → String) → Handler → Handler
unfolding api_key_from_request admit error
require_retailer get_by_api_key_hash sha256_hex next ctx r s =
    let key = api_key_from_request r in
    if str_eq key ""
    then (
      s,
      error 401 "missing_api_key" (literal "provide an API key via 'Authorization: Bearer <key>'"),
    )
    else admit next ctx r s (get_by_api_key_hash (hash_api_key sha256_hex key))

-- Whether the secret is the one that the carrier has; no carrier, no secret.
abbrev pub is_secret : Option String → String → Bool
is_secret none secret = false
is_secret (some expected) secret = str_eq secret expected

admit_rider :
    Map String String
    → Handler
    → Context
    → Request
    → Store
    → Option (String × String)
    → Store × Response
unfolding error with_carrier_id
admit_rider secrets next ctx r s none =
    (s, error 401 "invalid_rider_token" (literal "token must be in the form {carrier_id}:{secret}"))
admit_rider secrets next ctx r s (some (carrier_id, secret)) =
    if str_eq carrier_id "" || str_eq secret ""
    then (
      s,
      error 401 "invalid_rider_token" (literal "token must be in the form {carrier_id}:{secret}"),
    )
    else if not (is_secret (lookup carrier_id secrets) secret)
    then (s, error 401 "invalid_rider_token" (literal "unknown carrier or wrong secret"))
    else next (with_carrier_id ctx carrier_id) r s

-- The separator is the colon.
unfoldable pub require_rider : Map String String → Handler → Handler
unfolding api_key_from_request admit_rider error
require_rider secrets next ctx r s =
    let raw = api_key_from_request r in
    if str_eq raw ""
    then (
      s,
      error 401 "missing_rider_token"
          (literal "provide a rider token via 'Authorization: Bearer {carrier_id}:{secret}'"),
    )
    else admit_rider secrets next ctx r s (cut 58 raw)

-- Recover: a handler that panicked, `none`, is answered by 500; the stores are as they were then.
unfoldable pub recovered : Store → Option (Store × Response) → Store × Response
unfolding json
recovered s none = (s, json 500 (plain "internal server error"))
recovered s (some a) = a
