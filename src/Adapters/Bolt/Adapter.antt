-- ===== src/Adapters/Bolt/Adapter.antt =====
-- internal/adapters/carriers/bolt/adapter.go: the adapter as the interface that the rest of the program
-- calls. `unmarshal` is json.Unmarshal of a webhook's body.
use dashfetchr.Base.{Option, none, some, String, Bytes, List}
use dashfetchr.Base.Int64.{ℤ}
use dashfetchr.Base.Float64.{Float64}
use dashfetchr.Base.Maps.{Map}
use dashfetchr.Core.Errors.{Error, Result, ok, err, ◌>>=◌, invalid_request, invalid_signature}
use dashfetchr.Ports.Events.{DomainEvent}
use dashfetchr.Ports.Carrier.{
  Carrier, ShipmentRequest, ShipmentResponse, ShipmentStatus, EstimateRequest, Estimate,
}
use dashfetchr.Adapters.Bolt.{build_capabilities}
use dashfetchr.Adapters.Bolt.Types.{BoltWebhookPayload}
use dashfetchr.Adapters.Bolt.Mapper.{
  to_bolt_create_order, to_bolt_estimate, from_bolt_order, from_bolt_order_status,
  from_bolt_estimate, to_domain_events,
}
use dashfetchr.Adapters.Bolt.Client.{
  Config, Net, create_order, get_order, cancel_order, estimate, map_client_error,
}
use dashfetchr.Adapters.Bolt.Webhook.{verify_signature}

abbrev mapped {ℓ} : {A : Type ℓ} → Result A → Result A
mapped (ok a) = ok a
mapped (err x) = err (map_client_error x)

abbrev error? {ℓ} : {A : Type ℓ} → Result A → Option Error
error? (ok a) = none
error? (err x) = some x

-- `if err != nil { return nil, e }`
abbrev instead {ℓ} : {A : Type ℓ} → Error → Result A → Result A
instead e (ok a) = ok a
instead e (err x) = err e

module _ (cfg : Config) (net : Net) where
  unfoldable pub create_shipment : (Float64 → ℤ) → ShipmentRequest → Result ShipmentResponse
  create_shipment wild req = do
    bolt_req ← to_bolt_create_order wild cfg.service_area req
    resp ← mapped (create_order cfg net bolt_req req.idempotency_key)
    ok (from_bolt_order resp)

  unfoldable pub get_shipment_status : String → Result ShipmentStatus
  get_shipment_status external_id = do
    order ← mapped (get_order cfg net external_id)
    ok (from_bolt_order_status order)

  unfoldable pub cancel_shipment : String → String → Option Error
  cancel_shipment external_id reason = error? (mapped (cancel_order cfg net external_id reason))

  unfoldable pub get_estimate : (Float64 → ℤ) → EstimateRequest → Result Estimate
  get_estimate wild req = do
    bolt_req ← to_bolt_estimate wild cfg.service_area req
    resp ← mapped (estimate cfg net bolt_req)
    ok (from_bolt_estimate resp)

module _ (order : Map String String → Map String String) (hmac_hex : String → Bytes → String)
    (unmarshal : Bytes → Result BoltWebhookPayload) where
  unfoldable pub parse_webhook :
      (secret : String) → Bytes → Map String String → Result (List DomainEvent)
  parse_webhook secret raw headers = do
    signed ← instead invalid_signature (verify_signature order hmac_hex raw headers secret)
    wh ← instead invalid_request (unmarshal raw)
    ok (to_domain_events wh)

  -- New, as a CarrierPort.
  unfoldable pub new_adapter : Config → Net → (Float64 → ℤ) → Carrier
  unfolding create_shipment get_shipment_status cancel_shipment get_estimate parse_webhook
  new_adapter cfg net wild = record {
    capabilities = build_capabilities;
    create_shipment = create_shipment cfg net wild;
    get_shipment_status = get_shipment_status cfg net;
    cancel_shipment = cancel_shipment cfg net;
    get_estimate = get_estimate cfg net wild;
    parse_webhook = parse_webhook cfg.webhook_secret;
  }
