-- ===== src/Infra/Postgres/DeliveryRepo.antt =====
-- internal/infra/postgres/delivery_repo.go: a row per delivery. What the column types keep of a value (a timestamp's
-- microseconds, jsonb's own text), how ORDER BY sorts, which rows the schema refuses and whether the database
-- can be read are a `Database`.
pub mod RoundTrip
pub mod Upserts
use dashfetchr.Base.{
  ℕ, zero, suc, ◌==◌, ◌||◌, ◌&&◌, not, Bool, true, false, Option, none, some, String, Bytes, codes,
  bytes_eq, List, [], ◌∷◌, str_eq, map, if◌then◌else◌,
}
use dashfetchr.Base.Int64.{ℤ, pos, eqb_ℤ, ltb_ℤ}
use dashfetchr.Base.Time.{Time, utc}
use dashfetchr.Base.Uuid.{Uuid}
use dashfetchr.Core.Errors.{Error, Result, ok, err, ◌>>=◌, wrap, wrapped, not_found}
use dashfetchr.Core.Delivery.States.{State, same_state}
use dashfetchr.Base.Float64.{whole}
use dashfetchr.Infra.Memory.DeliveryRepo.{limit_of}
use dashfetchr.Core.Delivery.{Delivery, Location, Rider}
use dashfetchr.Core.Delivery as Delivery
use dashfetchr.Infra.Postgres.Json.{Codec, marshal_json, unmarshal_json, null_if_empty, or_blank}
use dashfetchr.Infra.Postgres.DeliveryRow.{
  Database, Range, Row, Table, first, from_timestamptz_range, in_utc, merge, nullable_int64,
  or_zero, to_timestamptz_range, upsert, zero_location, zero_rider,
}

module _ (db : Database) where
  unfoldable pub rider_json : Option Rider → Result Bytes
  unfolding marshal_json codes
  rider_json none = ok (codes "null")
  rider_json (some r) = marshal_json db.riders r

  -- The arguments of the statement.
  unfoldable pub row_of : Delivery → Result Row
  unfolding rider_json to_timestamptz_range nullable_int64 null_if_empty marshal_json codes
  row_of d = do
    pickup ← marshal_json db.locations d.pickup
    drop ← marshal_json db.locations d.drop
    rider ← rider_json d.rider
    ok (record {
      id = d.id;
      awb_id = d.awb_id;
      leg_number = d.leg_number;
      carrier_id = d.carrier_id;
      carrier_version = d.carrier_version;
      carrier_external_id = null_if_empty d.carrier_external_id;
      pickup = pickup;
      drop = drop;
      scheduled_window = to_timestamptz_range d.scheduled_window_start d.scheduled_window_end;
      state = d.state;
      state_reason = null_if_empty d.state_reason;
      rider = rider;
      price_quoted_minor = d.price_quoted_minor;
      price_charged_minor = nullable_int64 d.price_charged_minor;
      price_currency = d.price_currency;
      estimated_pickup_at = d.estimated_pickup_at;
      estimated_drop_at = d.estimated_drop_at;
      actual_pickup_at = d.actual_pickup_at;
      actual_drop_at = d.actual_drop_at;
      idempotency_key = null_if_empty d.idempotency_key;
      metadata = codes "{}";
      created_at = d.created_at;
      updated_at = d.updated_at;
    })

  abbrev pub keep_time? : Option Time → Option Time
  keep_time? none = none
  keep_time? (some t) = some (db.keep_time t)

  -- What the columns keep of a row.
  abbrev pub kept : Row → Row
  kept r = record r {
    pickup = db.keep_json r.pickup;
    drop = db.keep_json r.drop;
    scheduled_window = db.keep_range r.scheduled_window;
    rider = db.keep_json r.rider;
    estimated_pickup_at = keep_time? r.estimated_pickup_at;
    estimated_drop_at = keep_time? r.estimated_drop_at;
    actual_pickup_at = keep_time? r.actual_pickup_at;
    actual_drop_at = keep_time? r.actual_drop_at;
    metadata = db.keep_json r.metadata;
    created_at = db.keep_time r.created_at;
    updated_at = db.keep_time r.updated_at;
  }

  executed : Table → Row → Option Error → Table × Option Error
  unfolding upsert
  executed t new (some x) = (t, some (wrapped "postgres: save delivery" x))
  executed t new none = (upsert (kept new) t, none)

  save_row : Table → Result Row → Table × Option Error
  unfolding executed
  save_row t (err x) = (t, some x)
  save_row t (ok new) = executed t new (db.refuses t new)

  -- DeliveryRepo.Save
  unfoldable pub save : Delivery → Table → Table × Option Error
  unfolding save_row
  save d t = save_row t (row_of d)

  unfoldable pub scan_rider : Bytes → Result (Option Rider)
  unfolding unmarshal_json codes bytes_eq
  scan_rider [] = ok none
  scan_rider (b ∷ bs) =
      if bytes_eq (b ∷ bs) (codes "null")
      then ok none
      else unmarshal_json db.riders zero_rider (b ∷ bs) >>= λ r. ok (some r)

  -- scanDelivery, of a row that could be read
  unfoldable pub scan_delivery : Row → Result Delivery
  unfolding unmarshal_json scan_rider from_timestamptz_range
  scan_delivery r = do
    pickup ← unmarshal_json db.locations zero_location r.pickup
    drop ← unmarshal_json db.locations zero_location r.drop
    rider ← scan_rider r.rider
    ok (record {
      id = r.id;
      awb_id = r.awb_id;
      leg_number = r.leg_number;
      carrier_id = r.carrier_id;
      carrier_version = r.carrier_version;
      carrier_external_id = or_blank r.carrier_external_id;
      pickup = pickup;
      drop = drop;
      scheduled_window_start = (from_timestamptz_range r.scheduled_window).0;
      scheduled_window_end = (from_timestamptz_range r.scheduled_window).1;
      state = r.state;
      state_reason = or_blank r.state_reason;
      rider = rider;
      price_quoted_minor = r.price_quoted_minor;
      price_charged_minor = or_zero r.price_charged_minor;
      price_currency = r.price_currency;
      estimated_pickup_at = r.estimated_pickup_at;
      estimated_drop_at = r.estimated_drop_at;
      actual_pickup_at = r.actual_pickup_at;
      actual_drop_at = r.actual_drop_at;
      idempotency_key = or_blank r.idempotency_key;
      created_at = r.created_at;
      updated_at = r.updated_at;
    })

  scan_first : Option Error → Option Row → Result Delivery
  unfolding scan_delivery
  scan_first (some x) o = err (wrapped "postgres: scan delivery" x)
  scan_first none none = err not_found
  scan_first none (some r) = scan_delivery r

  unfoldable pub get_by_id : Uuid → Table → Result Delivery
  unfolding scan_first first
  get_by_id id t = scan_first db.unreadable (first (λ r. r.id == id) t)

  abbrev is_text : String → Option String → Bool
  is_text s none = false
  is_text s (some v) = str_eq v s

  unfoldable pub get_by_carrier_external_id : String → String → Table → Result Delivery
  unfolding scan_first first
  get_by_carrier_external_id carrier_id external_id t =
      scan_first db.unreadable
        (first (λ r. str_eq r.carrier_id carrier_id && is_text external_id r.carrier_external_id) t)

  -- collectDeliveries
  unfoldable pub collect_deliveries : Table → Result (List Delivery)
  unfolding scan_delivery
  collect_deliveries [] = ok []
  collect_deliveries (r ∷ t) = scan_delivery r >>= λ d. collect_deliveries t >>= λ ds. ok (d ∷ ds)

  select : (Row → Bool) → Table → Table
  select p [] = []
  select p (r ∷ t) = let rest = select p t in if p r then r ∷ rest else rest

  take : ℕ → Table → Table
  take zero t = []
  take (suc n) [] = []
  take (suc n) (r ∷ t) = r ∷ take n t

  listed : String → Option Error → Table → Result (List Delivery)
  unfolding collect_deliveries
  listed message (some x) t = err (wrapped message x)
  listed message none t = collect_deliveries t

  unfoldable pub list_by_awb : Uuid → Table → Result (List Delivery)
  unfolding listed select
  list_by_awb awb_id t =
      listed "postgres: list deliveries by awb" db.unreadable
        (db.by_leg (select (λ r. r.awb_id == awb_id) t))

  unfoldable pub list_by_state : State → ℤ → Table → Result (List Delivery)
  unfolding listed select take
  list_by_state state limit t =
      listed "postgres: list deliveries by state" db.unreadable
        (take (limit_of limit) (db.by_creation (select (λ r. same_state r.state state) t)))
