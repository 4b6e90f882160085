-- ===== src/Infra/Postgres/AwbRepo/RoundTrip.antt =====
-- About what is read back of a parcel that was saved (internal/infra/postgres/awb_repo.go).
use dashfetchr.Base.{none, some, String, eq_iff, [], ◌≡◌, ◌≢◌, arith, inl, inr}
use dashfetchr.Core.Errors.{Error, ok, err, wrapped, Result-cases}
use dashfetchr.Core.Awb.{Awb}
use dashfetchr.Infra.Postgres.Json.{marshal_json, null_if_empty}
use dashfetchr.Infra.Postgres.Json.Laws.{IsKept, unmarshal_kept}
use dashfetchr.Infra.Postgres.AwbRepo.{Row, Database, row_of, scan_awb, kept, zero_package}

-- What the database keeps of a parcel: JSON texts as the values that they encode; and how pgx reads a text into a string,
-- where it refuses NULL.
pub record IsFaithful (db : Database) (null_refused : Error) (a : Awb) : Type 0 where
  pub refs : IsKept db.keep_json db.refs a.external_awbs
  pub packages : IsKept db.keep_json db.packages a.pkg
  pub text : (s : String) → db.scan_text (some s) ≡ ok s
  pub null : db.scan_text none ≡ err null_refused

abbrev pub as_kept : Database → Awb → Awb
as_kept db a = record a {
  created_at = db.keep_time a.created_at;
  updated_at = db.keep_time a.updated_at;
}

module _ (db : Database) {x : Error} (a : Awb) (laws : IsFaithful db x a) where
  -- A parcel whose row could be made is read back from what the database keeps of the row, with the times that
  -- the database keeps, if it has a reason for its state. Without one it cannot be read: the reason is
  -- written as NULL.
  pub scan_awb-row_of :
      {r : Row}
      → row_of db a ≡ ok r
      → (a.state_reason ≢ "" → scan_awb db (kept db r) ≡ ok (as_kept db a))
        × (a.state_reason ≡ "" → scan_awb db (kept db r) ≡ err (wrapped "postgres: scan awb" x))
  unfolding row_of scan_awb null_if_empty
  scan_awb-row_of {r} h = elim (Result-cases (marshal_json db.refs a.external_awbs)) [
    | inr (y, p) ↦ absurd (ground arith)
    | inl (refs, p) ↦ elim (Result-cases (marshal_json db.packages a.pkg)) [
      | inr (y, q) ↦ absurd (ground arith)
      | inl (pkg, q) ↦
          let refs_back = unmarshal_kept db.keep_json db.refs [] a.external_awbs laws.refs p in
          let pkg_back =
            unmarshal_kept db.keep_json db.packages zero_package a.pkg laws.packages q in
          let e = eq_iff a.state_reason "" in
          let t = laws.text a.state_reason in
          let n = laws.null in (λ reason. ground arith, λ blank. ground arith)
    ]
  ]
