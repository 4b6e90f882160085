-- ===== src/Infra/Postgres/DeliveryRepo/RoundTrip.antt =====
-- About what is read back of a delivery that was saved (internal/infra/postgres/delivery_repo.go).
use dashfetchr.Base.{
  bytes_eq→eq, bytes_eq, Bool-cases, Option, none, some, true, Bytes, codes, [], ◌∷◌, ◌≡◌, ◌≢◌,
  refl, arith, inl, inr,
}
use dashfetchr.Base.Int64.{ℤ, pos, eqb_ℤ_iff}
use dashfetchr.Base.Time.{Time, utc, before}
use dashfetchr.Core.Errors.{ok, Result-cases}
use dashfetchr.Core.Delivery.{Delivery, Rider}
use dashfetchr.Infra.Postgres.Json.{marshal_json, unmarshal_json}
use dashfetchr.Infra.Postgres.Json.Laws.{IsKept, or_blank-null_if_empty, marshalled, unmarshal_kept}
use dashfetchr.Infra.Postgres.DeliveryRepo.{
  row_of, scan_delivery, kept, keep_time?, rider_json, scan_rider,
}
use dashfetchr.Infra.Postgres.DeliveryRow.{
  zero_location, zero_rider, Row, Database, to_timestamptz_range, from_timestamptz_range,
  nullable_int64, or_zero,
}

or_zero-nullable_int64 : (v : ℤ) → or_zero (nullable_int64 v) ≡ v
unfolding nullable_int64
or_zero-nullable_int64 v = ground (arith, eqb_ℤ_iff v (pos 0))

-- What the database keeps of a delivery: JSON texts as the values that they encode, the text null as it is, no range as none,
-- and a range whose bounds stay apart as the range of the bounds.
pub record IsFaithful (db : Database) (d : Delivery) : Type 0 where
  pub pickup : IsKept db.keep_json db.locations d.pickup
  pub drop : IsKept db.keep_json db.locations d.drop
  pub riders : (v : Rider) → d.rider ≡ some v → IsKept db.keep_json db.riders v
  pub riders_not_null :
      (v : Rider) (b : Bytes)
      → d.rider ≡ some v
      → db.riders.marshal v ≡ ok b
      → db.keep_json b ≢ codes "null"
  pub null : db.keep_json (codes "null") ≡ codes "null"
  pub no_range : db.keep_range none ≡ none
  pub range :
      (a b : Time)
      → before (db.keep_time a) (db.keep_time b) ≡ true
      → db.keep_range (some (some a, some b)) ≡ some (some (db.keep_time a), some (db.keep_time b))

-- A window of a delivery: both bounds, which stay apart, or none.
abbrev pub IsWindow : Database → Option Time → Option Time → Type 0
IsWindow db none none = Unit {0}
IsWindow db (some a) (some b) = before (db.keep_time (utc a)) (db.keep_time (utc b)) ≡ true
IsWindow db _ _ = ⊥

abbrev pub window_time : Database → Option Time → Option Time
window_time db none = none
window_time db (some t) = some (utc (db.keep_time (utc t)))

-- The delivery that is read back: its times are those that the database keeps.
abbrev pub as_kept : Database → Delivery → Delivery
as_kept db d = record d {
  scheduled_window_start = window_time db d.scheduled_window_start;
  scheduled_window_end = window_time db d.scheduled_window_end;
  estimated_pickup_at = keep_time? db d.estimated_pickup_at;
  estimated_drop_at = keep_time? db d.estimated_drop_at;
  actual_pickup_at = keep_time? db d.actual_pickup_at;
  actual_drop_at = keep_time? db d.actual_drop_at;
  created_at = db.keep_time d.created_at;
  updated_at = db.keep_time d.updated_at;
}

module _ (db : Database) (d : Delivery) (laws : IsFaithful db d) where
  window_kept :
      (a b : Option Time)
      → IsWindow db a b
      → from_timestamptz_range (db.keep_range (to_timestamptz_range a b))
        ≡ (window_time db a, window_time db b)
  unfolding from_timestamptz_range to_timestamptz_range
  window_kept none none h = rw (laws.no_range)
  window_kept (some a) (some b) h = rw (laws.range (utc a) (utc b) h)
  window_kept none (some b) h = absurd h
  window_kept (some a) none h = absurd h

  scan_some :
      (bs : Bytes) (r : Rider)
      → bs ≢ []
      → bs ≢ codes "null"
      → unmarshal_json db.riders zero_rider bs ≡ ok r
      → scan_rider db bs ≡ ok (some r)
  unfolding scan_rider
  scan_some [] r h k e = absurd (h refl)
  scan_some (b ∷ bs) r h k e = elim (Bool-cases (bytes_eq (b ∷ bs) (codes "null"))) [
    | inl same ↦ absurd (k (bytes_eq→eq (b ∷ bs) (codes "null") same))
    | inr other ↦ ground arith
  ]

  rider_kept :
      (o : Option Rider) {b : Bytes}
      → d.rider ≡ o
      → rider_json db o ≡ ok b
      → scan_rider db (db.keep_json b) ≡ ok o
  unfolding rider_json scan_rider
  rider_kept none {b} same h = let text : b ≡ codes "null" = ground arith in rw text (rw laws.null)
  rider_kept (some r) {b} same h =
      let decoded = unmarshal_kept db.keep_json db.riders zero_rider r (laws.riders r same) h in
      let m = marshalled db.riders r h in
      scan_some (db.keep_json b) r (laws.riders r same b m).0 (laws.riders_not_null r b same m)
        decoded

  -- A delivery whose row could be made is read back from what the database keeps of the row, if its window has
  -- both bounds, which stay apart, or none: its times are those that the database keeps, and all else is
  -- as it was.
  pub scan_delivery-row_of :
      {r : Row}
      → IsWindow db d.scheduled_window_start d.scheduled_window_end
      → row_of db d ≡ ok r
      → scan_delivery db (kept db r) ≡ ok (as_kept db d)
  unfolding row_of scan_delivery
  scan_delivery-row_of {r} w h = elim (Result-cases (marshal_json db.locations d.pickup)) [
    | inr (x, p) ↦ absurd (ground arith)
    | inl (pickup, p) ↦ elim (Result-cases (marshal_json db.locations d.drop)) [
      | inr (x, q) ↦ absurd (ground arith)
      | inl (drop, q) ↦ elim (Result-cases (rider_json db d.rider)) [
        | inr (x, u) ↦ absurd (ground arith)
        | inl (rider, u) ↦
            let pickup_back =
              unmarshal_kept db.keep_json db.locations zero_location d.pickup laws.pickup p in
            let drop_back =
              unmarshal_kept db.keep_json db.locations zero_location d.drop laws.drop q in
            let rider_back = rider_kept d.rider refl u in
            let window = window_kept d.scheduled_window_start d.scheduled_window_end w in
            let e1 = or_blank-null_if_empty d.carrier_external_id in
            let e2 = or_blank-null_if_empty d.state_reason in
            let e3 = or_blank-null_if_empty d.idempotency_key in
            let e4 = or_zero-nullable_int64 d.price_charged_minor in ground arith
      ]
    ]
  ]
