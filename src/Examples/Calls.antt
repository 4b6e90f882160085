-- ===== src/Examples/Calls.antt =====
-- Runs of the API and of Bolt's adapter (internal/infra/http, internal/app/app.go, internal/adapters/carriers/bolt).
use dashfetchr.Base.{
  none, ◌≡◌, String, List, [], ◌∷◌, ◌∙◌, ap, ◌≤◌, ◌^◌, length, Bytes, Option, some, ◌⊎◌, ◌≢◌, refl,
  inl, inr, arith, eq_iff, trim_prefix, All,
}
use dashfetchr.Infra.Events.{EventHandler}
use dashfetchr.Infra.Memory.RoutingRepo as RoutingRepo
use dashfetchr.Routing.Strategy.{Reasoning, cheapest_strategy}
use dashfetchr.App.Dispatch.{dispatch_delivery, build_shipment_request}
use dashfetchr.App.Dispatch.Logged.{World, dispatch_logged}
use dashfetchr.App.Dispatch.Logged.Refines.{IsTold, dispatch_logged_lem}
use dashfetchr.Examples.Fixtures.{cheap, noon, waiting, parcel, as_stored}
use dashfetchr.Ports.Events.{DomainEvent}
use dashfetchr.Base.Maps.{Map}
use dashfetchr.Base.Float64.{whole}
use dashfetchr.Core.Errors.{Error, ok, err, wrapped, http_error, invalid_signature}
use dashfetchr.Ports.Carrier.{ShipmentRequest}
use dashfetchr.Registry.{Registry}
use dashfetchr.App.Wiring.{new_app, wired}
use dashfetchr.App.Wiring.Started.{new_app_total, serve_bolt_unsigned, serve_dispatch_wired}
use dashfetchr.Adapters.Bolt.Mapper.{to_domain_events}
use dashfetchr.Adapters.Bolt.Webhook.{header_lookup}
use dashfetchr.Adapters.Bolt.Adapter.{parse_webhook, create_shipment}
use dashfetchr.Adapters.Bolt.Signed.{IsSigned, parse_webhook_iff}
use dashfetchr.Adapters.Bolt.Failures.{root, create_shipment_refused}
use dashfetchr.Infra.Http.Message.{Request, of_error, error_body}
use dashfetchr.Infra.Http.Server.{Wiring, serve, post_bolt, post_dispatch}
use dashfetchr.Examples.Stores.{as_stored-IsOrder}
use dashfetchr.Examples.Desk as Desk
use dashfetchr.Examples.Api.{
  net, bolt_config, toy_hmac, arrival, unmarshal, wild, readings, request, outside, api_config,
}

-- The registry that `New` makes.
abbrev fleet : Registry
fleet = (new_app_total outside api_config).0

abbrev started : Wiring
started = wired outside api_config fleet

api_started : new_app outside api_config ≡ ok started
api_started = let (r, e, f) = new_app_total outside api_config in f

abbrev forged : Request
forged = record { headers = ("X-Bolt-Signature", "sha256=t") ∷ []; delivery_id = ""; body = ok [] }

forged_digest :
    trim_prefix "sha256=" (header_lookup as_stored forged.headers "X-Bolt-Signature") ≡ "t"
unfolding trim_prefix header_lookup dashfetchr.Base.Maps.lookup
forged_digest = refl

not_signed : ¬ IsSigned as_stored toy_hmac "s" [] forged.headers
not_signed (a, b, c) = let e = forged_digest in ground (arith, eq_iff "t" "s")

serve_bolt_unsigned_example : serve started readings post_bolt forged Desk.desk ≡ (
  Desk.desk,
  record {
    status = 422;
    payload = error_body (of_error (wrapped "webhook: parse" invalid_signature)) "webhook_failed";
  },
)
serve_bolt_unsigned_example =
    serve_bolt_unsigned outside api_config readings forged Desk.desk {raw = []} api_started refl
      (omega arith) not_signed

abbrev signed : Map String String
signed = ("X-Bolt-Signature", "sha256=s") ∷ []

signed_header : header_lookup as_stored signed "X-Bolt-Signature" ≡ "sha256=s"
unfolding header_lookup dashfetchr.Base.Maps.lookup
signed_header = refl

signed_digest : trim_prefix "sha256=" "sha256=s" ≡ "s"
unfolding trim_prefix
signed_digest = refl

is_signed : IsSigned as_stored toy_hmac "s" [] signed
is_signed = (
  λ h. ground (arith, eq_iff "s" ""),
  λ h. let e = signed_header in ground (arith, eq_iff "sha256=s" ""),
  ap (λ x. trim_prefix "sha256=" x) signed_header ∙ signed_digest,
)

parse_webhook_iff_example :
    parse_webhook as_stored toy_hmac unmarshal "s" [] signed ≡ ok (to_domain_events arrival)
parse_webhook_iff_example =
    (parse_webhook_iff as_stored toy_hmac "s" [] signed unmarshal (to_domain_events arrival)).1
      (is_signed, (arrival, refl, refl))

abbrev named : ShipmentRequest
named = record (build_shipment_request parcel waiting) {
  recipient = record { name = "Ion"; phone = "07"; email = "" };
}

create_shipment_refused_example :
    (x : Error) × (create_shipment bolt_config (net 429) wild named ≡ err x)
    × (root x ≡ http_error 429 [])
unfolding dashfetchr.Adapters.Bolt.Mapper.to_bolt_create_order
    dashfetchr.Adapters.Bolt.Mapper.to_bolt_location dashfetchr.Base.Float64.eq_f
    build_shipment_request whole dashfetchr.Adapters.Bolt.Mapper.to_bolt_package
    dashfetchr.Base.Float64.le_f dashfetchr.Adapters.Bolt.Client.create_order
create_shipment_refused_example =
    create_shipment_refused bolt_config (net 429) wild named
      {answer = record { status = 429; body = [] }} refl refl refl refl (omega arith)

serve_dispatch_wired_example :
    ((serve started readings post_dispatch (request "Bearer key" "7") Desk.desk).0 ≡ Desk.desk)
    × ((serve started readings post_dispatch (request "Bearer key" "7") Desk.desk).1.status ≢ 202)
serve_dispatch_wired_example =
    serve_dispatch_wired outside api_config readings (request "Bearer key" "7") Desk.desk
      as_stored-IsOrder api_started

-- A bus of one handler, which keeps the events.
abbrev keep : EventHandler (List DomainEvent)
keep e es = (e ∷ es, none)

abbrev quiet : World (List DomainEvent)
quiet = record { store = Desk.desk; log = RoutingRepo.new; heard = [] }

abbrev say : Reasoning → String
say r = "cheapest"

dispatch_logged_lem_example :
    ((
      (dispatch_logged (keep ∷ []) say cheapest_strategy (cheap ∷ []) noon noon 7 quiet).0.store,
      (dispatch_logged (keep ∷ []) say cheapest_strategy (cheap ∷ []) noon noon 7 quiet).1,
    )
      ≡ dispatch_delivery cheapest_strategy (cheap ∷ []) noon noon 7 Desk.desk)
    × IsTold
        (keep ∷ [])
        say
        cheapest_strategy
        (cheap ∷ [])
        noon
        7
        quiet
        (dispatch_logged (keep ∷ []) say cheapest_strategy (cheap ∷ []) noon noon 7 quiet).0
        (dispatch_logged (keep ∷ []) say cheapest_strategy (cheap ∷ []) noon noon 7 quiet).1
dispatch_logged_lem_example =
    dispatch_logged_lem (keep ∷ []) say cheapest_strategy (cheap ∷ []) noon noon 7 quiet
