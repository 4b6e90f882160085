-- ===== src/Infra/Postgres/CustodyRepo.antt =====
-- internal/infra/postgres/custody_repo.go: a row per custody event. A `Database` is the JSON of each column,
-- what the column types keep of a value, how ORDER BY sorts by the sequence number, which rows the schema
-- refuses, and whether the database can be read. A column that is NULL reads as no bytes.
pub mod RoundTrip
use dashfetchr.Base.{
  ◌==◌, ◌||◌, Bool, true, false, Option, none, some, String, Bytes, bytes_eq, codes, List, [], ◌∷◌,
  if◌then◌else◌,
}
use dashfetchr.Base.Int64.{ℤ, pos}
use dashfetchr.Base.Float64.{whole}
use dashfetchr.Base.Time.{Time}
use dashfetchr.Base.Uuid.{Uuid}
use dashfetchr.Core.Errors.{Error, Result, ok, err, ◌>>=◌, wrapped, not_found}
use dashfetchr.Core.Custody.{Event, EventType, Actor, GeoPoint, PhotoRef, SignatureRef}
use dashfetchr.Infra.Postgres.Json.{Codec, marshal_json, unmarshal_json, null_if_empty, or_blank}

pub record Row : Type 0 where
  pub event_id : Uuid
  pub delivery_id : Uuid
  pub sequence_num : ℤ
  pub type : EventType
  pub occurred_at : Time
  pub carrier_time : Option Time
  pub actor : Bytes
  pub location : Bytes
  pub photos : Bytes
  pub signature : Bytes
  pub reason : Option String
  pub metadata : Bytes
  pub prev_hash : Bytes
  pub hash : Bytes

abbrev pub Table : Type 0
Table = List Row

pub record Database : Type 0 where
  pub actors : Codec Actor
  pub locations : Codec GeoPoint
  pub photos : Codec (List PhotoRef)
  pub signatures : Codec SignatureRef
  pub keep_json : Bytes → Bytes
  pub keep_time : Time → Time
  pub ascending : Table → Table
  pub descending : Table → Table
  pub refuses : Table → Row → Option Error
  pub unreadable : Option Error

abbrev pub zero_actor : Actor
zero_actor = record { type = ""; carrier_id = ""; id = ""; name = "" }

abbrev pub zero_point : GeoPoint
zero_point = record {
  lat = whole 0;
  lng = whole 0;
  accuracy_m = whole 0;
  altitude = whole 0;
  heading = whole 0;
}

abbrev pub zero_signature : SignatureRef
zero_signature = record { s3_uri = ""; sha256 = "" }

-- A value that may be nil, and a column that may be NULL or hold the text null.
unfoldable pub marshal_option {ℓ} : {A : Type ℓ} → Codec A → Option A → Result Bytes
unfolding marshal_json
marshal_option c none = ok []
marshal_option c (some v) = marshal_json c v

unfoldable pub unmarshal_option {ℓ} : {A : Type ℓ} → Codec A → A → Bytes → Result (Option A)
unfolding unmarshal_json codes bytes_eq
unmarshal_option c zero [] = ok none
unmarshal_option c zero (b ∷ bs) =
    if bytes_eq (b ∷ bs) (codes "null")
    then ok none
    else unmarshal_json c zero (b ∷ bs) >>= λ v. ok (some v)

-- No photos, nil or not, are written as an empty list.
unfoldable pub marshal_photos : Codec (List PhotoRef) → List PhotoRef → Result Bytes
unfolding marshal_json codes
marshal_photos c [] = ok (codes "[]")
marshal_photos c (p ∷ ps) = marshal_json c (p ∷ ps)

abbrev or_braces : Bytes → Bytes
or_braces [] = codes "{}"
or_braces (b ∷ bs) = b ∷ bs

abbrev read_metadata : Bytes → Bytes
read_metadata m = if bytes_eq m (codes "null") || bytes_eq m (codes "{}") then [] else m

module _ (db : Database) where
  -- The arguments of the statement.
  unfoldable pub row_of : Event → Result Row
  unfolding marshal_json marshal_option marshal_photos null_if_empty codes
  row_of e = do
    actor ← marshal_json db.actors e.actor
    location ← marshal_option db.locations e.location
    photos ← marshal_photos db.photos e.photos
    signature ← marshal_option db.signatures e.signature
    ok (record {
      event_id = e.event_id;
      delivery_id = e.delivery_id;
      sequence_num = e.sequence_num;
      type = e.type;
      occurred_at = e.occurred_at;
      carrier_time = e.carrier_time;
      actor = actor;
      location = location;
      photos = photos;
      signature = signature;
      reason = null_if_empty e.reason;
      metadata = or_braces e.metadata;
      prev_hash = e.prev_hash;
      hash = e.hash;
    })

  abbrev pub keep_time? : Option Time → Option Time
  keep_time? none = none
  keep_time? (some t) = some (db.keep_time t)

  -- NULL stays NULL.
  abbrev pub keep_json? : Bytes → Bytes
  keep_json? [] = []
  keep_json? (b ∷ bs) = db.keep_json (b ∷ bs)

  -- What the columns keep of a row.
  abbrev pub kept : Row → Row
  kept r = record r {
    occurred_at = db.keep_time r.occurred_at;
    carrier_time = keep_time? r.carrier_time;
    actor = db.keep_json r.actor;
    location = keep_json? r.location;
    photos = db.keep_json r.photos;
    signature = keep_json? r.signature;
    metadata = db.keep_json r.metadata;
  }

  has_event : Uuid → Table → Bool
  has_event id [] = false
  has_event id (r ∷ t) = (r.event_id == id) || has_event id t

  inserted : Table → Row → Option Error → Table × Option Error
  inserted t new (some x) = (t, some (wrapped "postgres: append custody" x))
  inserted t new none = (kept new ∷ t, none)

  -- ON CONFLICT (event_id) DO NOTHING
  append_row : Table → Result Row → Table × Option Error
  unfolding inserted has_event
  append_row t (err x) = (t, some x)
  append_row t (ok new) =
      if has_event new.event_id t then (t, none) else inserted t new (db.refuses t new)

  -- CustodyRepo.Append
  unfoldable pub append : Event → Table → Table × Option Error
  unfolding append_row
  append e t = append_row t (row_of e)

  -- scanCustodyEvent, of a row that could be read
  unfoldable pub scan_custody_event : Row → Result Event
  unfolding unmarshal_json unmarshal_option bytes_eq codes
  scan_custody_event r = do
    actor ← unmarshal_json db.actors zero_actor r.actor
    location ← unmarshal_option db.locations zero_point r.location
    photos ← unmarshal_json db.photos [] r.photos
    signature ← unmarshal_option db.signatures zero_signature r.signature
    ok (record {
      event_id = r.event_id;
      delivery_id = r.delivery_id;
      sequence_num = r.sequence_num;
      type = r.type;
      occurred_at = r.occurred_at;
      carrier_time = r.carrier_time;
      actor = actor;
      location = location;
      photos = photos;
      signature = signature;
      reason = or_blank r.reason;
      metadata = read_metadata r.metadata;
      prev_hash = r.prev_hash;
      hash = r.hash;
    })

  select : Uuid → Table → Table
  select id [] = []
  select id (r ∷ t) = let rest = select id t in if r.delivery_id == id then r ∷ rest else rest

  last_of : Option Error → Table → Result (Option Event)
  unfolding scan_custody_event
  last_of (some x) t = err (wrapped "postgres: scan custody" x)
  last_of none [] = ok none
  last_of none (r ∷ t) = scan_custody_event r >>= λ e. ok (some e)

  -- LIMIT 1
  unfoldable pub last_by_delivery : Uuid → Table → Result (Option Event)
  unfolding last_of select
  last_by_delivery id t = last_of db.unreadable (db.descending (select id t))

  -- The loop over the rows.
  unfoldable pub collect_events : Table → Result (List Event)
  unfolding scan_custody_event
  collect_events [] = ok []
  collect_events (r ∷ t) = scan_custody_event r >>= λ e. collect_events t >>= λ es. ok (e ∷ es)

  listed : Option Error → Table → Result (List Event)
  unfolding collect_events
  listed (some x) t = err (wrapped "postgres: list custody" x)
  listed none t = collect_events t

  unfoldable pub list_by_delivery : Uuid → Table → Result (List Event)
  unfolding listed select
  list_by_delivery id t = listed db.unreadable (db.ascending (select id t))
