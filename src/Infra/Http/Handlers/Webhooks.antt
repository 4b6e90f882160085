-- ===== src/Infra/Http/Handlers/Webhooks.antt =====
-- internal/infra/http/handlers/webhooks.go: a carrier's webhook. The body is at most 1 MB: past that,
-- http.MaxBytesReader fails. `none` is a panic in the webhook service.
use dashfetchr.Base.{ℕ, ◌^◌, leb, length, Option, none, some, String, Bytes, if◌then◌else◌}
use dashfetchr.Base.Uuid.{Uuid}
use dashfetchr.Base.Maps.{Map}
use dashfetchr.Core.Errors.{Error, Result, ok, err, ◌>>=◌, external}
use dashfetchr.Core.Delivery.{Delivery}
use dashfetchr.Core.Custody.Hashing.{Digest}
use dashfetchr.Registry.{Registry}
use dashfetchr.App.Store.{Store}
use dashfetchr.App.Custodyapp.{Fresh}
use dashfetchr.App.Webhook.{process}
use dashfetchr.Infra.Http.Message.{Request, Response, Handler, json, error, of_error, nothing}
use dashfetchr.Infra.Http.Middleware.{recovered}

abbrev limited : Bytes → Result Bytes
limited raw =
    if leb (length raw) (2 ^ 20) then ok raw else err (external "http: request body too large")

-- The body, read through the limit.
unfoldable pub read_body : Request → Result Bytes
read_body r = r.body >>= limited

abbrev answer : Option (Store × Option Error) → Option (Store × Response)
answer none = none
answer (some (s, some x)) = some (s, error 422 "webhook_failed" (of_error x))
answer (some (s, none)) = some (s, json 204 nothing)

module _ (d : Digest) (visits : Map Uuid Delivery → Map Uuid Delivery) (registry : Registry) where
  ingest_body : (ℕ → Fresh) → String → Request → Store → Result Bytes → Option (Store × Response)
  unfolding error json
  ingest_body fresh carrier_id r s (err x) = some (s, error 400 "read_body" (of_error x))
  ingest_body fresh carrier_id r s (ok raw) =
      answer (process d visits fresh registry carrier_id raw r.headers s)

  unfoldable pub ingest : (ℕ → Fresh) → String → Request → Store → Option (Store × Response)
  unfolding ingest_body read_body
  ingest fresh carrier_id r s = ingest_body fresh carrier_id r s (read_body r)

  -- Webhooks.Bolt, under the middleware that catches panics.
  unfoldable pub bolt : (ℕ → Fresh) → Handler
  unfolding ingest recovered
  bolt fresh ctx r s = recovered s (ingest fresh "bolt_food" r s)
