-- ===== src/Infra/Http/Handlers/Health.antt =====
-- internal/infra/http/handlers/health.go, and PingDB of internal/app/app.go: `pool` is what a ping of the
-- database answers, where there is a pool.
use dashfetchr.Base.{Option, none, some}
use dashfetchr.Core.Errors.{Error}
use dashfetchr.Infra.Http.Message.{Response, json, status_text, not_ready, of_error}

unfoldable pub ping_db : Option (Option Error) → Option Error
ping_db none = none
ping_db (some ping) = ping

unfoldable pub liveness : Response
unfolding json
liveness = json 200 (status_text "ok")

ready : Option Error → Response
unfolding json
ready none = json 200 (status_text "ready")
ready (some x) = json 503 (not_ready (of_error x))

unfoldable pub readiness : Option (Option Error) → Response
unfolding ready ping_db
readiness pool = ready (ping_db pool)
