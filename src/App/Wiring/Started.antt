-- ===== src/App/Wiring/Started.antt =====
-- About the API as it is started (internal/app/app.go, cmd/api): webhooks, dispatches and riders.
use dashfetchr.Base.{
  ℕ, ◌≤◌, ◌^◌, length, All, some, String, Bytes, List, [], ◌∷◌, ◌≢◌, ◌≡◌, refl, sym, subst, ap, ◌∙◌,
  inl, inr, arith, Option-cases, Bool-cases, ◌==◌,
}
use dashfetchr.Base.Maps.{Map, IsOrder, string_eq, lookup}
use dashfetchr.Core.Errors.{Error, ok, wrapped, invalid_signature, ok-injective, Result-cases}
use dashfetchr.Ports.Carrier.{Carrier, last_mile}
use dashfetchr.Registry.{Registry, list_by_role}
use dashfetchr.Registry.Wire.{wire, list_by_role-wire}
use dashfetchr.Adapters.Bolt.Signed.{IsSigned}
use dashfetchr.App.Store.{Store}
use dashfetchr.Core.Retailer.{Retailer}
use dashfetchr.Core.Delivery.{Delivery}
use dashfetchr.Core.Custody.Hashing.{Digest}
use dashfetchr.Base.Uuid.{Uuid}
use dashfetchr.Routing.Strategy.{cheapest_strategy}
use dashfetchr.Auth.{background, with_retailer}
use dashfetchr.App.Custodyapp.{Fresh}
use dashfetchr.App.Webhook.{process}
use dashfetchr.App.Booking.{get_booking}
use dashfetchr.Infra.Http.Handlers.Webhooks as Webhooks
use dashfetchr.Infra.Http.Handlers.Bookings as Bookings
use dashfetchr.Infra.Http.Handlers.Custody as Custody
use dashfetchr.Infra.Http.Access.{require_retailer_lem}
use dashfetchr.App.Wiring.{or_nil}
use dashfetchr.App.Boundary.{process_unsigned, dispatch_delivery_bolt}
use dashfetchr.App.Wiring.{Outside, Config, bolt_adapter, wired, new_app}
use dashfetchr.Registry.{register}
use dashfetchr.Adapters.Bolt.{build_capabilities}
use dashfetchr.Adapters.Bolt.Adapter.{new_adapter}
use dashfetchr.Infra.Http.Message.{Request, Response, of_error, error_body}
use dashfetchr.Infra.Http.Access.{require_rider_lem}
use dashfetchr.Infra.Http.Server.{Wiring, Readings, serve, post_bolt, post_dispatch, post_custody}

-- The handler of webhooks, where the service fails.
bolt_refused :
    (d : Digest) (visits : Map Uuid Delivery → Map Uuid Delivery) (registry : Registry)
    (fresh : ℕ → Fresh) (r : Request) (s : Store) {raw : Bytes} {t : Store} {x : Error}
    → r.body ≡ ok raw
    → length raw ≤ 2 ^ 20
    → process d visits fresh registry "bolt_food" raw r.headers s ≡ some (t, some x)
    → Webhooks.bolt d visits registry fresh background r s
      ≡ (t, record { status = 422; payload = error_body (of_error x) "webhook_failed" })
unfolding Webhooks.bolt
bolt_refused d visits registry fresh r s {raw} body small h = ground arith

only_secret :
    (carrier_id secret only : String)
    → lookup carrier_id (("bolt_food", only) ∷ []) ≡ some secret
    → secret ≡ only
unfolding lookup
only_secret carrier_id secret only h = ground arith

module _ (out : Outside) (cfg : Config) where
  all_bolt :
      (registry : Registry)
      → IsOrder out.order
      → wire (bolt_adapter out cfg) ≡ ok registry
      → All (λ k. k ≡ bolt_adapter out cfg) (wired out cfg registry).registered
  all_bolt registry visits e = elim (Option-cases (list_by_role out.order last_mile registry)) [
    | inl p ↦ subst (λ o. All (λ k. k ≡ bolt_adapter out cfg) (or_nil o)) (sym p) tt
    | inr (cs, p) ↦
        subst (λ o. All (λ k. k ≡ bolt_adapter out cfg) (or_nil o)) (sym p)
          (list_by_role-wire (bolt_adapter out cfg) out.order last_mile visits e p)
  ]

  -- The handler of dispatches, where every carrier is Bolt's adapter.
  dispatch_refused :
      (ret : Retailer) (c : Readings) (r : Request) (s : Store) (cs : List Carrier)
      → All (λ k. k ≡ bolt_adapter out cfg) cs
      → ((Bookings.dispatch out.parse_uuid cheapest_strategy cs c.now c.later
            (with_retailer background ret)
            r
            s).0
          ≡ s)
        × ((Bookings.dispatch out.parse_uuid cheapest_strategy cs c.now c.later
              (with_retailer background ret)
              r
              s).1.status
            ≢ 202)
  unfolding Bookings.dispatch with_retailer
  dispatch_refused ret c r s cs all = elim (Option-cases (out.parse_uuid r.delivery_id)) [
    | inl p ↦ (ground arith, λ t. ground arith)
    | inr (id, p) ↦
        let (kept, (x, failed)) =
          dispatch_delivery_bolt out.order out.hmac_hex out.unmarshal cfg.bolt out.net out.wild cs
            all c.now c.later id s in
        elim (Result-cases (get_booking id s)) [
          | inr (y, q) ↦ (ground arith, λ t. ground arith)
          | inl ((del, a), q) ↦ elim (Bool-cases (a.retailer_id == ret.id)) [
            | inr n ↦ (ground arith, λ t. ground arith)
            | inl y ↦ (ground arith, λ t. ground arith)
          ]
        ]
  ]

  -- The API starts, whatever the configuration, with a registry that holds Bolt's adapter.
  pub new_app_total :
      (r : Registry) × (wire (bolt_adapter out cfg) ≡ ok r)
      × (new_app out cfg ≡ ok (wired out cfg r))
  unfolding new_app wire register build_capabilities new_adapter
  new_app_total = (_, refl, refl)

  -- The registry behind an API that was started.
  started_from :
      {w : Wiring}
      → new_app out cfg ≡ ok w
      → (r : Registry) × (wire (bolt_adapter out cfg) ≡ ok r) × (w ≡ wired out cfg r)
  started_from h = let (r, e, f) = new_app_total in (r, e, ok-injective (sym h ∙ f))

  -- A webhook for Bolt of at most 1 MB that is not signed under the configured secret is answered by 422, and
  -- changes no store.
  pub serve_bolt_unsigned :
      {w : Wiring} (c : Readings) (r : Request) (s : Store) {raw : Bytes}
      → new_app out cfg ≡ ok w
      → r.body ≡ ok raw
      → length raw ≤ 2 ^ 20
      → ¬ IsSigned out.order out.hmac_hex cfg.bolt.webhook_secret raw r.headers
      → serve w c post_bolt r s ≡ (
        s,
        record {
          status = 422;
          payload =
              error_body (of_error (wrapped "webhook: parse" invalid_signature)) "webhook_failed";
        },
      )
  unfolding serve
  serve_bolt_unsigned c r s {raw} h body small forged =
      let (registry, e, same) = started_from h in
      let p =
        process_unsigned out.order out.hmac_hex out.unmarshal cfg.bolt out.net out.wild out.digest
          out.visits c.events raw r.headers s e forged in
      ap (λ x. serve x c post_bolt r s) same
      ∙ bolt_refused out.digest out.visits registry c.events r s body small p

  -- With riders' secrets unset, no custody request is admitted.
  pub serve_custody_unset :
      {w : Wiring} (c : Readings) (r : Request) (s : Store)
      → new_app out cfg ≡ ok w
      → cfg.rider_secret ≡ ""
      → ((serve w c post_custody r s).0 ≡ s) × ((serve w c post_custody r s).1.status ≡ 401)
  unfolding serve
  serve_custody_unset c r s h unset =
      let (registry, e, same) = started_from h in
      let w2 = wired out cfg registry in
      let go = Custody.record_event w2.digest w2.decode_custody w2.parse_uuid c.event in
      subst
        (λ (x : Wiring).
          ((serve x c post_custody r s).0 ≡ s) × ((serve x c post_custody r s).1.status ≡ 401))
        (sym same)
        (elim (require_rider_lem w2.rider_secrets go background r s) [
          | inr (kept, status) ↦ (kept, status)
          | inl (carrier_id, (secret, token, known, set, named), f) ↦
              absurd (set (only_secret carrier_id secret cfg.rider_secret known ∙ unset))
        ])

  -- No dispatch request changes a store of the API as it is started, and none is answered by 202.
  pub serve_dispatch_wired :
      {w : Wiring} (c : Readings) (r : Request) (s : Store)
      → IsOrder out.order
      → new_app out cfg ≡ ok w
      → ((serve w c post_dispatch r s).0 ≡ s) × ((serve w c post_dispatch r s).1.status ≢ 202)
  unfolding serve
  serve_dispatch_wired c r s visits h =
      let (registry, e, same) = started_from h in
      let w2 = wired out cfg registry in
      let go = Bookings.dispatch w2.parse_uuid w2.strategy w2.registered c.now c.later in
      subst
        (λ (x : Wiring).
          ((serve x c post_dispatch r s).0 ≡ s) × ((serve x c post_dispatch r s).1.status ≢ 202))
        (sym same)
        (elim (require_retailer_lem w2.get_by_api_key_hash w2.sha256_hex go background r s) [
          | inr (kept, status) ↦ (kept, λ t. ground arith)
          | inl (ret, caller, f) ↦
              let all = all_bolt registry visits e in
              let (kept, status) = dispatch_refused ret c r s w2.registered all in
              (
                ap (λ (p : Store × Response). p.0) f ∙ kept,
                λ t. status (sym (ap (λ (p : Store × Response). p.1.status) f) ∙ t),
              )
        ])
