-- ===== src/App/Boundary.antt =====
-- The services with Bolt's adapter behind the registry that Wire makes (internal/app/app.go,
-- internal/carrier/wire.go): webhooks that are not signed, and shipments.
use mathlib.Core.List.{Memᴰ}
use dashfetchr.Routing.Strategy.{cheapest_strategy}
use dashfetchr.Routing.Decisions.{decide_route_cheapest}
use dashfetchr.App.Dispatch.Results.{
  assignment_parts, dispatched_parts, dispatch_delivery_err, saved_as,
}
use dashfetchr.Base.{
  All, ℕ, some, String, Bytes, List, [], ◌∷◌, ◌≡◌, ◌≢◌, refl, arith, uncons, Option-cases, inl, inr,
  subst, ap, ◌∙◌,
}
use dashfetchr.Base.Int64.{ℤ}
use dashfetchr.Base.Float64.{Float64}
use dashfetchr.Base.Uuid.{Uuid}
use dashfetchr.Base.Time.{Time}
use dashfetchr.Base.Maps.{Map}
use dashfetchr.Core.Errors.{
  Error, Result, ok, err, wrapped, invalid_signature, recipient_required, ok-injective,
}
use dashfetchr.Core.Delivery.{Delivery}
use dashfetchr.Core.Awb.{Awb}
use dashfetchr.Core.Custody.Hashing.{Digest}
use dashfetchr.Ports.Carrier.{Carrier, last_mile}
use dashfetchr.Registry.{Registry, register, get}
use dashfetchr.Registry.Wire.{wire}
use dashfetchr.Adapters.Bolt.{build_capabilities}
use dashfetchr.Adapters.Bolt.Types.{BoltWebhookPayload}
use dashfetchr.Adapters.Bolt.Client.{Config, Net}
use dashfetchr.Adapters.Bolt.Adapter.{new_adapter, create_shipment}
use dashfetchr.Adapters.Bolt.Mapper.{to_bolt_create_order}
use dashfetchr.Adapters.Bolt.Signed.{IsSigned, parse_webhook_unsigned}
use dashfetchr.Adapters.Bolt.Failures.{create_shipment-build_shipment_request}
use dashfetchr.App.Custodyapp.{Fresh}
use dashfetchr.App.Webhook.{process}
use dashfetchr.App.Dispatch.{dispatch_delivery, assignment, build_shipment_request}
use dashfetchr.App.Store.{Store}

module _ (order : Map String String → Map String String) (hmac_hex : String → Bytes → String)
    (unmarshal : Bytes → Result BoltWebhookPayload) (cfg : Config) (net : Net)
    (wild : Float64 → ℤ) where
  abbrev pub bolt : Carrier
  bolt = new_adapter order hmac_hex unmarshal cfg net wild

  pub get_wired : {r : Registry} → wire bolt ≡ ok r → get "bolt_food" r ≡ ok (some bolt)
  unfolding wire register build_capabilities get new_adapter
  get_wired h = subst (λ r. get "bolt_food" r ≡ ok (some bolt)) (ok-injective h) refl

  -- A webhook for Bolt that is not signed under the configured secret changes no store: Process answers with
  -- the error of the signature.
  pub process_unsigned :
      (d : Digest) (visits : Map Uuid Delivery → Map Uuid Delivery) (fresh : ℕ → Fresh)
      (raw : Bytes) (headers : Map String String) (s : Store) {r : Registry}
      → wire bolt ≡ ok r
      → ¬ IsSigned order hmac_hex cfg.webhook_secret raw headers
      → process d visits fresh r "bolt_food" raw headers s
        ≡ some (s, some (wrapped "webhook: parse" invalid_signature))
  unfolding process new_adapter
  process_unsigned d visits fresh raw headers s h forged =
      let e1 = get_wired h in
      let e2 =
        parse_webhook_unsigned order hmac_hex cfg.webhook_secret raw headers unmarshal forged in
      ground arith

  chosen_bolt : (c : Carrier) (cs : List Carrier) → All (λ k. k ≡ bolt) cs → Memᴰ c cs → c ≡ bolt
  chosen_bolt c [] all m = elim m [ ]
  chosen_bolt c (k ∷ cs) (p, all) m = elim (uncons m) [
    | inl e ↦ e ∙ p
    | inr n ↦ chosen_bolt c cs all n
  ]

  module _ (cs : List Carrier) (all : All (λ k. k ≡ bolt) cs) (now later : Time) where
    assignment_bolt :
        (a : Awb) (del k : Delivery) → assignment cheapest_strategy cs now later a del ≢ ok k
    unfolding create_shipment new_adapter to_bolt_create_order
    assignment_bolt a del k h =
        let req = build_shipment_request a del in
        let (dec, resp, p, q, t) = assignment_parts cheapest_strategy cs now later a del h in
        let (est, m, fits, quoted, least) = decide_route_cheapest req last_mile now cs p in
        let refused : dec.chosen.create_shipment req ≡ err recipient_required =
          ap (λ (c : Carrier). c.create_shipment req) (chosen_bolt dec.chosen cs all m)
          ∙ create_shipment-build_shipment_request cfg net wild a del in
        cc

    -- Where Bolt's adapter is the only carrier, no dispatch succeeds, whatever the delivery, and none changes
    -- a store.
    pub dispatch_delivery_bolt :
        (id : Uuid) (s : Store)
        → ((dispatch_delivery cheapest_strategy cs now later id s).0 ≡ s)
          × ((x : Error) × ((dispatch_delivery cheapest_strategy cs now later id s).1 ≡ some x))
    dispatch_delivery_bolt id s =
        elim (Option-cases (dispatch_delivery cheapest_strategy cs now later id s).1) [
          | inr (x, e) ↦ (dispatch_delivery_err cheapest_strategy cs now later id s e, (x, e))
          | inl e ↦
              let (k, p, q) = saved_as cheapest_strategy cs now later id s e in
              let (del, a, g, w, f, h) = dispatched_parts cheapest_strategy cs now later id s p in
              absurd (assignment_bolt a del k h)
        ]
