-- ===== src/Infra/Http/Message.antt =====
-- internal/infra/http/response/json.go and the types of net/http that the handlers use. A request's headers
-- are the first values under the canonical keys, and `delivery_id` is the parameter that chi takes
-- from the path. A response is its status and what is encoded as its JSON body.
use dashfetchr.Base.{ℕ, Option, none, some, String, Bytes, List}
use dashfetchr.Base.Int64.{ℤ}
use dashfetchr.Base.Time.{Time}
use dashfetchr.Base.Uuid.{Uuid}
use dashfetchr.Base.Maps.{Map, string_eq, lookup}
use dashfetchr.Core.Errors.{Error, Result, error_text}
use dashfetchr.Core.Delivery.{Delivery}
use dashfetchr.Core.Awb.{Awb}
use dashfetchr.Core.Custody.{Event}
use dashfetchr.App.Booking.{CreateBookingResult}
use dashfetchr.App.Store.{Store}
use dashfetchr.Auth.{Context}

pub record Request : Type 0 where
  pub headers : Map String String
  pub delivery_id : String
  pub body : Result Bytes

abbrev or_blank : Option String → String
or_blank none = ""
or_blank (some v) = v

-- r.Header.Get(key), of a canonical key
unfoldable pub header : Request → String → String
unfolding lookup
header r key = or_blank (lookup key r.headers)

-- A text of the program, or what err.Error() gives.
pub data Text : Type 0 where
  literal : String → Text
  of_error : Error → Text

-- The text itself, where it holds no state, number or identifier.
unfoldable pub message_text : Text → Option String
unfolding error_text
message_text (literal s) = some s
message_text (of_error x) = error_text x

pub data Payload : Type 0 where
  nothing : Payload
  error_body : (message : Text) → (code : String) → Payload
  status_text : String → Payload
  not_ready : Text → Payload
  booking_created : CreateBookingResult → Payload
  booking_view : Delivery → Awb → List Event → Payload
  custody_recorded :
      (event_id : Uuid) → (sequence : ℤ) → (hash : Bytes) → (occurred_at : Time) → Payload
  plain : String → Payload

pub record Response : Type 0 where
  pub status : ℕ
  pub payload : Payload

-- response.JSON
unfoldable pub json : ℕ → Payload → Response
json status v = record { status = status; payload = v }

-- response.Error
unfoldable pub error : ℕ → String → Text → Response
unfolding json
error status code message = json status (error_body message code)

-- http.Handler over the stores.
abbrev pub Handler : Type 0
Handler = Context → Request → Store → Store × Response
