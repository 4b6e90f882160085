-- ===== src/Adapters/Bolt/Signed.antt =====
-- About what a webhook must carry (internal/adapters/carriers/bolt/webhook.go, mapper.go and adapter.go).
use dashfetchr.Base.{
  All, ◌≤◌, length, String, Bytes, List, eq_iff, trim_prefix, ◌≡◌, ◌≢◌, ◌↔◌, inl, inr, arith,
}
use dashfetchr.Base.Maps.{Map}
use dashfetchr.Core.Errors.{Result, ok, err, Result-cases, invalid_signature}
use dashfetchr.Ports.Events.{DomainEvent, external_id, occurred_at, base_of}
use dashfetchr.Adapters.Bolt.Types.{BoltWebhookPayload}
use dashfetchr.Adapters.Bolt.Mapper.{to_domain_events}
use dashfetchr.Adapters.Bolt.Webhook.{header_lookup, verify_signature}
use dashfetchr.Adapters.Bolt.Adapter.{parse_webhook}

module _ (order : Map String String → Map String String) (hmac_hex : String → Bytes → String)
    (secret : String) (raw : Bytes) (headers : Map String String) where
  -- The webhook's header holds the digest of the body under a secret that is configured.
  abbrev pub IsSigned : Type 0
  IsSigned =
      (secret ≢ "")
      × (header_lookup order headers "X-Bolt-Signature" ≢ "")
      × (trim_prefix "sha256=" (header_lookup order headers "X-Bolt-Signature")
          ≡ hmac_hex secret raw)

  verify_signature_iff : (verify_signature order hmac_hex raw headers secret ≡ ok tt) ↔ IsSigned
  unfolding verify_signature
  verify_signature_iff =
      let provided = header_lookup order headers "X-Bolt-Signature" in
      let e1 = eq_iff secret "" in
      let e2 = eq_iff provided "" in
      let e3 = eq_iff (trim_prefix "sha256=" provided) (hmac_hex secret raw) in
      (
        λ h. (ground (arith, e1), ground (arith, e2), ground (arith, e3)),
        λ (a, b, c). ground (arith, e1, e2, e3),
      )

  -- ParseWebhook returns events exactly if the webhook is signed and its body is a payload, and these are
  -- the events of that payload.
  pub parse_webhook_iff :
      (unmarshal : Bytes → Result BoltWebhookPayload) (evs : List DomainEvent)
      → (parse_webhook order hmac_hex unmarshal secret raw headers ≡ ok evs) ↔ (
          IsSigned
          × ((wh : BoltWebhookPayload) × (unmarshal raw ≡ ok wh) × (evs ≡ to_domain_events wh)))
  unfolding parse_webhook
  parse_webhook_iff unmarshal evs =
      let iff = verify_signature_iff in
      (
        λ h. elim (Result-cases (verify_signature order hmac_hex raw headers secret)) [
          | inr (x, e) ↦ absurd (ground arith)
          | inl (u, e) ↦ elim (Result-cases (unmarshal raw)) [
            | inr (x, p) ↦ absurd (ground arith)
            | inl (wh, p) ↦ (iff.0 e, (wh, p, ground arith))
          ]
        ],
        λ (s, (wh, p, q)). let e = iff.1 s in ground arith,
      )

  -- A webhook that is not signed is refused, whatever its body.
  pub parse_webhook_unsigned :
      (unmarshal : Bytes → Result BoltWebhookPayload)
      → ¬ IsSigned
      → parse_webhook order hmac_hex unmarshal secret raw headers ≡ err invalid_signature
  unfolding parse_webhook
  parse_webhook_unsigned unmarshal h =
      elim (Result-cases (verify_signature order hmac_hex raw headers secret)) [
        | inr (x, e) ↦ ground arith
        | inl (u, e) ↦ absurd (h (verify_signature_iff.0 e))
      ]

-- The events of a payload: at most one, of the payload's order, at its time, of the carrier Bolt.
pub to_domain_events_lem :
    (wh : BoltWebhookPayload)
    → (length (to_domain_events wh) ≤ 1)
      × All
          (λ ev.
            (external_id ev ≡ wh.order_id)
            × (occurred_at ev ≡ wh.timestamp)
            × ((base_of ev).carrier_id ≡ "bolt_food"))
          (to_domain_events wh)
unfolding to_domain_events base_of
to_domain_events_lem wh = ground arith
