-- ===== src/Adapters/Bolt/Failures.antt =====
-- About the errors of the Bolt adapter (internal/adapters/carriers/bolt/client.go and mapper.go).
use dashfetchr.Base.{String, none, some, [], ◌∷◌, ◌<>◌, ◌≤◌, Bytes, ◌≡◌, refl, arith}
use dashfetchr.Base.Int64.{ℤ}
use dashfetchr.Base.Float64.{Float64}
use dashfetchr.Core.Errors.{
  Error, ok, err, wrapped, transport_error, http_error, wrapped_err, recipient_required,
}
use dashfetchr.Core.Delivery.{Delivery}
use dashfetchr.Core.Awb.{Awb}
use dashfetchr.Ports.Carrier.{ShipmentRequest}
use dashfetchr.App.Dispatch.{build_shipment_request}
use dashfetchr.Adapters.Bolt.Types.{BoltCreateOrderRequest}
use dashfetchr.Adapters.Bolt.Mapper.{to_bolt_create_order}
use dashfetchr.Adapters.Bolt.Client.{
  Request, Response, set_headers, bearer, Config, Net, create_order, map_client_error,
}
use dashfetchr.Adapters.Bolt.Adapter.{create_shipment}

-- The error at the end of the chain of `Unwrap`: what errors.Is compares with a sentinel.
abbrev pub root : Error → Error
root (wrapped msg x) = root x
root (transport_error x) = root x
root (wrapped_err x msg) = root x
root x = x

-- Whatever the error, mapClientError leaves the end of its chain as it was.
pub root-map_client_error : (x : Error) → root (map_client_error x) ≡ root x
unfolding map_client_error
root-map_client_error x = ground arith

module _ (cfg : Config) (net : Net) (wild : Float64 → ℤ) where
  -- The request of an order: its URL, the key of the account, the order's own key where there is one, its body.
  abbrev pub order_request : String → Bytes → Request
  order_request idempotency_key body = record {
    method = "POST";
    url = cfg.base_url <> "/v1/orders";
    headers = set_headers (("Idempotency-Key", idempotency_key) ∷ []) (bearer cfg.api_key);
    body = some body;
  }

  -- Where Bolt answers the request of a shipment's order with a status of 400 or above, CreateShipment fails with an
  -- error whose chain ends in that HTTP error, with its status and body, and so in none of the port's.
  pub create_shipment_refused :
      (req : ShipmentRequest) {bolt_req : BoltCreateOrderRequest} {body : Bytes} {answer : Response}
      → to_bolt_create_order wild cfg.service_area req ≡ ok bolt_req
      → net.marshal_order bolt_req ≡ ok body
      → net.new_request "POST" (cfg.base_url <> "/v1/orders") ≡ none
      → net.send (order_request req.idempotency_key body) ≡ ok answer
      → 400 ≤ answer.status
      → (x : Error) × (create_shipment cfg net wild req ≡ err x)
        × (root x ≡ http_error answer.status answer.body)
  unfolding create_shipment create_order
  create_shipment_refused req {bolt_req} {body} {answer} p m n sent bad = (
    map_client_error (http_error answer.status answer.body),
    ground arith,
    root-map_client_error (http_error answer.status answer.body),
  )

  -- No shipment that the dispatch service asks for is created: it never names a recipient.
  pub create_shipment-build_shipment_request :
      (a : Awb) (del : Delivery)
      → create_shipment cfg net wild (build_shipment_request a del) ≡ err recipient_required
  unfolding create_shipment to_bolt_create_order build_shipment_request
  create_shipment-build_shipment_request a del = refl
