-- ===== src/Adapters/Bolt/Client.antt =====
-- internal/adapters/carriers/bolt/client.go: the REST client and its errors. The network, net/http's checks of a
-- request and encoding/json are parameters; a response is its status and its whole body.
use dashfetchr.Base.{
  ℕ, ◌||◌, Option, none, some, String, Bytes, [], ◌∷◌, ◌<>◌, str_eq, leb, ◌==◌, if◌then◌else◌,
}
use dashfetchr.Base.Maps.{Map, string_eq, insert}
use dashfetchr.Core.Errors.{
  Error, Result, ok, err, ◌>>=◌, ◌>>◌, check, wrap, transport_error, http_error, wrapped_err,
}
use dashfetchr.Adapters.Bolt.Types.{
  BoltCreateOrderRequest, BoltOrder, BoltEstimateRequest, BoltEstimateResponse,
}

-- Config, less the rider apps' secret and the sandbox flag, which the client does not read.
pub record Config : Type 0 where
  pub base_url : String
  pub api_key : String
  pub webhook_secret : String
  pub service_area : String

pub record Request : Type 0 where
  pub method : String
  pub url : String
  pub headers : Map String String
  pub body : Option Bytes

pub record Response : Type 0 where
  pub status : ℕ
  pub body : Bytes

-- The code outside of the program that the client calls: json.Marshal of each body, http.NewRequest's
-- check, http.Client.Do, and json.Decode of each answer.
pub record Net : Type 0 where
  pub marshal_order : BoltCreateOrderRequest → Result Bytes
  pub marshal_estimate : BoltEstimateRequest → Result Bytes
  pub marshal_reason : String → Result Bytes
  pub new_request : String → String → Option Error
  pub send : Request → Result Response
  pub decode_order : Bytes → Result BoltOrder
  pub decode_estimate : Bytes → Result BoltEstimateResponse

-- The encoding of a body, where there is one.
abbrev encoded : Option (Result Bytes) → Result (Option Bytes)
encoded none = ok none
encoded (some r) = r >>= λ b. ok (some b)

-- The loop over the extra headers, of which an empty value is not set.
abbrev pub set_headers : Map String String → Map String String → Map String String
set_headers [] h = h
set_headers ((k, v) ∷ m) h = set_headers m (if str_eq v "" then h else insert k v h)

abbrev sent : Result Response → Result Response
sent (ok r) = ok r
sent (err x) = err (transport_error x)

abbrev answered {ℓ} : {A : Type ℓ} → (Bytes → Result A) → Response → Result A
answered decode r = if leb 400 r.status then err (http_error r.status r.body) else decode r.body

abbrev pub bearer : String → Map String String
bearer key =
    ("Authorization", "Bearer " <> key)
    ∷ ("Content-Type", "application/json")
    ∷ ("Accept", "application/json")
    ∷ []

module _ (cfg : Config) (net : Net) where
  -- Client.do; `decode` is what becomes of the body of an answer.
  unfoldable pub do_request {ℓ} :
      {A : Type ℓ}
      → (method path : String) → Option (Result Bytes)
      → (Bytes → Result A)
      → Map String String
      → Result A
  do_request method path body decode extra = do
    b ← encoded body
    check (net.new_request method (cfg.base_url <> path))
    r ← sent (
        net.send (record {
          method = method;
          url = cfg.base_url <> path;
          headers = set_headers extra (bearer cfg.api_key);
          body = b;
        }))
    answered decode r

  unfoldable pub create_order : BoltCreateOrderRequest → String → Result BoltOrder
  unfolding do_request
  create_order req idempotency_key =
      do_request "POST" "/v1/orders" (some (net.marshal_order req))
        (λ b. wrap "bolt: decode response" (net.decode_order b))
        (("Idempotency-Key", idempotency_key) ∷ [])

  unfoldable pub get_order : String → Result BoltOrder
  unfolding do_request
  get_order order_id =
      do_request "GET" ("/v1/orders/" <> order_id) none
        (λ b. wrap "bolt: decode response" (net.decode_order b)) []

  unfoldable pub cancel_order : String → String → Result (Unit {0})
  unfolding do_request
  cancel_order order_id reason =
      do_request "POST" ("/v1/orders/" <> order_id <> "/cancel") (some (net.marshal_reason reason))
        (λ b. ok tt) []

  unfoldable pub estimate : BoltEstimateRequest → Result BoltEstimateResponse
  unfolding do_request
  estimate req =
      do_request "POST" "/v1/estimate" (some (net.marshal_estimate req))
        (λ b. wrap "bolt: decode response" (net.decode_estimate b)) []

-- mapClientError, of an error that is not nil.
unfoldable pub map_client_error : Error → Error
map_client_error (transport_error x) = wrapped_err (transport_error x) "carrier unavailable"
map_client_error (http_error status body) =
    let x = http_error status body in
    if (status == 401) || (status == 403)
    then wrapped_err x "auth failed"
    else if status == 404
    then wrapped_err x "shipment not found"
    else if status == 409
    then wrapped_err x "conflict / already cancelled"
    else if status == 422
    then wrapped_err x "invalid request"
    else if status == 429
    then wrapped_err x "rate limited"
    else if leb 500 status
    then wrapped_err x "carrier unavailable"
    else x
map_client_error x = x
