-- ===== src/Infra/Postgres/DeliveryRow.antt =====
-- internal/infra/postgres/delivery_repo.go: the row of a delivery, what its columns make of values, and the
-- statement's upsert: the columns are the fields of a row, and `merge` is the ON CONFLICT clause. Metadata,
-- which nothing sets, is written as {} and not read.
use dashfetchr.Base.{◌==◌, Bool, Option, none, some, String, Bytes, List, [], ◌∷◌, if◌then◌else◌}
use dashfetchr.Base.Int64.{ℤ, pos, eqb_ℤ}
use dashfetchr.Base.Time.{Time, utc}
use dashfetchr.Base.Uuid.{Uuid}
use dashfetchr.Core.Errors.{Error}
use dashfetchr.Core.Delivery.States.{State}
use dashfetchr.Base.Float64.{whole}
use dashfetchr.Core.Delivery.{Delivery, Location, Rider}
use dashfetchr.Core.Delivery as Delivery
use dashfetchr.Infra.Postgres.Json.{Codec}

-- pgtype.Range of timestamps, where it is valid: each bound, where that is.
abbrev pub Range : Type 0
Range = Option (Option Time × Option Time)

pub record Row : Type 0 where
  pub id : Uuid
  pub awb_id : Uuid
  pub leg_number : ℤ
  pub carrier_id : String
  pub carrier_version : String
  pub carrier_external_id : Option String
  pub pickup : Bytes
  pub drop : Bytes
  pub scheduled_window : Range
  pub state : State
  pub state_reason : Option String
  pub rider : Bytes
  pub price_quoted_minor : ℤ
  pub price_charged_minor : Option ℤ
  pub price_currency : String
  pub estimated_pickup_at : Option Time
  pub estimated_drop_at : Option Time
  pub actual_pickup_at : Option Time
  pub actual_drop_at : Option Time
  pub idempotency_key : Option String
  pub metadata : Bytes
  pub created_at : Time
  pub updated_at : Time

abbrev pub Table : Type 0
Table = List Row

pub record Database : Type 0 where
  pub locations : Codec Location
  pub riders : Codec Rider
  pub keep_json : Bytes → Bytes
  pub keep_time : Time → Time
  pub keep_range : Range → Range
  pub refuses : Table → Row → Option Error
  pub unreadable : Option Error
  pub by_leg : Table → Table
  pub by_creation : Table → Table

unfoldable pub to_timestamptz_range : Option Time → Option Time → Range
to_timestamptz_range (some start) (some end) = some (some (utc start), some (utc end))
to_timestamptz_range _ _ = none

abbrev pub in_utc : Option Time → Option Time
in_utc none = none
in_utc (some t) = some (utc t)

unfoldable pub from_timestamptz_range : Range → Option Time × Option Time
from_timestamptz_range none = (none, none)
from_timestamptz_range (some (none, upper)) = (none, none)
from_timestamptz_range (some (some lower, upper)) = (some (utc lower), in_utc upper)

unfoldable pub nullable_int64 : ℤ → Option ℤ
nullable_int64 v = if eqb_ℤ v (pos 0) then none else some v

abbrev pub or_zero : Option ℤ → ℤ
or_zero none = pos 0
or_zero (some v) = v

abbrev pub zero_location : Location
zero_location = record {
  type = Delivery.address;
  lat = whole 0;
  lng = whole 0;
  address = "";
  locker_id = "";
  hub_id = "";
  floor = "";
  apartment = "";
  instructions = "";
}

abbrev pub zero_rider : Rider
zero_rider = record { id = ""; name = ""; phone = ""; vehicle = "" }

-- ON CONFLICT (id) DO UPDATE SET: four columns stay as they were.
unfoldable pub merge : Row → Row → Row
merge old new = record new {
  awb_id = old.awb_id;
  leg_number = old.leg_number;
  idempotency_key = old.idempotency_key;
  created_at = old.created_at;
}

unfoldable pub upsert : Row → Table → Table
unfolding merge
upsert new [] = new ∷ []
upsert new (old ∷ t) = if old.id == new.id then merge old new ∷ t else old ∷ upsert new t

-- The first row that a condition selects.
unfoldable pub first : (Row → Bool) → Table → Option Row
first p [] = none
first p (r ∷ t) = if p r then some r else first p t
