-- ===== src/Infra/Postgres/AwbRepo.antt =====
-- internal/infra/postgres/awb_repo.go: a row per parcel. `Save` is an upsert: its statement's columns are the
-- fields of a row, and `merge` is its ON CONFLICT clause. `scan_text` is how pgx reads a column of text
-- into a string, which has no place for NULL; the rest of a `Database` is what the column types keep,
-- which rows the schema refuses, and whether the database can be read.
pub mod RoundTrip
use dashfetchr.Base.{
  ◌==◌, Bool, Option, none, some, String, Bytes, bytes_eq, codes, List, [], ◌∷◌, if◌then◌else◌,
}
use dashfetchr.Base.Int64.{ℤ, pos}
use dashfetchr.Base.Float64.{whole}
use dashfetchr.Base.Time.{Time}
use dashfetchr.Base.Uuid.{Uuid}
use dashfetchr.Core.Errors.{Error, Result, ok, err, ◌>>=◌, wrap, wrapped, not_found}
use dashfetchr.Core.Awb.States.{State}
use dashfetchr.Core.Awb.{Awb, Package, ExternalRef}
use dashfetchr.Infra.Postgres.Json.{Codec, marshal_json, unmarshal_json, null_if_empty}

pub record Row : Type 0 where
  pub id : Uuid
  pub internal_awb : Bytes
  pub retailer_id : Uuid
  pub customer_id : Option Uuid
  pub external_awbs : Bytes
  pub pkg : Bytes
  pub declared_value_minor : ℤ
  pub declared_value_currency : Option String
  pub state : State
  pub state_reason : Option String
  pub metadata : Bytes
  pub created_at : Time
  pub updated_at : Time

abbrev pub Table : Type 0
Table = List Row

pub record Database : Type 0 where
  pub refs : Codec (List ExternalRef)
  pub packages : Codec Package
  pub keep_json : Bytes → Bytes
  pub keep_time : Time → Time
  pub scan_text : Option String → Result String
  pub refuses : Table → Row → Option Error
  pub unreadable : Option Error

-- ON CONFLICT (id) DO UPDATE SET: three columns stay as they were.
unfoldable pub merge : Row → Row → Row
merge old new = record new {
  internal_awb = old.internal_awb;
  retailer_id = old.retailer_id;
  created_at = old.created_at;
}

unfoldable pub upsert : Row → Table → Table
unfolding merge
upsert new [] = new ∷ []
upsert new (old ∷ t) = if old.id == new.id then merge old new ∷ t else old ∷ upsert new t

unfoldable pub first : (Row → Bool) → Table → Option Row
first p [] = none
first p (r ∷ t) = if p r then some r else first p t

abbrev pub zero_package : Package
zero_package = record {
  weight_kg = whole 0;
  length_cm = whole 0;
  width_cm = whole 0;
  height_cm = whole 0;
  declared_value_minor = pos 0;
  declared_value_ccy = "";
  description = "";
  fragile = Bool.false;
}

module _ (db : Database) where
  -- The arguments of the statement; the metadata is the empty map.
  unfoldable pub row_of : Awb → Result Row
  unfolding marshal_json null_if_empty codes
  row_of a = do
    ext ← marshal_json db.refs a.external_awbs
    pkg ← marshal_json db.packages a.pkg
    ok (record {
      id = a.id;
      internal_awb = a.internal_awb;
      retailer_id = a.retailer_id;
      customer_id = a.customer_id;
      external_awbs = ext;
      pkg = pkg;
      declared_value_minor = a.pkg.declared_value_minor;
      declared_value_currency = null_if_empty a.pkg.declared_value_ccy;
      state = a.state;
      state_reason = null_if_empty a.state_reason;
      metadata = codes "{}";
      created_at = a.created_at;
      updated_at = a.updated_at;
    })

  -- What the columns keep of a row.
  abbrev pub kept : Row → Row
  kept r = record r {
    external_awbs = db.keep_json r.external_awbs;
    pkg = db.keep_json r.pkg;
    metadata = db.keep_json r.metadata;
    created_at = db.keep_time r.created_at;
    updated_at = db.keep_time r.updated_at;
  }

  executed : Table → Row → Option Error → Table × Option Error
  unfolding upsert
  executed t new (some x) = (t, some (wrapped "postgres: save awb" x))
  executed t new none = (upsert (kept new) t, none)

  save_row : Table → Result Row → Table × Option Error
  unfolding executed
  save_row t (err x) = (t, some x)
  save_row t (ok new) = executed t new (db.refuses t new)

  -- AWBRepo.Save
  unfoldable pub save : Awb → Table → Table × Option Error
  unfolding save_row
  save a t = save_row t (row_of a)

  -- scanAWB, of a row that is there
  unfoldable pub scan_awb : Row → Result Awb
  unfolding unmarshal_json
  scan_awb r = do
    reason ← wrap "postgres: scan awb" (db.scan_text r.state_reason)
    refs ← unmarshal_json db.refs [] r.external_awbs
    pkg ← unmarshal_json db.packages zero_package r.pkg
    ok (record {
      id = r.id;
      internal_awb = r.internal_awb;
      retailer_id = r.retailer_id;
      customer_id = r.customer_id;
      external_awbs = refs;
      pkg = pkg;
      state = r.state;
      state_reason = reason;
      created_at = r.created_at;
      updated_at = r.updated_at;
    })

  scan_first : Option Error → Option Row → Result Awb
  unfolding scan_awb
  scan_first (some x) o = err (wrapped "postgres: scan awb" x)
  scan_first none none = err not_found
  scan_first none (some r) = scan_awb r

  unfoldable pub get_by_id : Uuid → Table → Result Awb
  unfolding scan_first first
  get_by_id id t = scan_first db.unreadable (first (λ r. r.id == id) t)

  unfoldable pub get_by_internal_awb : Bytes → Table → Result Awb
  unfolding scan_first first
  get_by_internal_awb internal_awb t =
      scan_first db.unreadable (first (λ r. bytes_eq r.internal_awb internal_awb) t)
