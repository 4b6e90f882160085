-- ===== src/Infra/Postgres/CustodyRepo/RoundTrip.antt =====
-- About what is read back of a custody event that was appended (internal/infra/postgres/custody_repo.go), and
-- of its hash (internal/core/custody/ledger.go).
use dashfetchr.Base.{
  subst, ℕ, suc, map, Option, none, some, Bytes, codes, List, [], ◌∷◌, ◌≡◌, ◌≢◌, refl, ap, ◌∙◌,
  arith, inl, inr, Bool-cases, bytes_eq, bytes_eq→eq,
}
use dashfetchr.Base.Time.{Time, unix_milli}
use dashfetchr.Core.Errors.{ok, ◌>>=◌, Result-cases}
use dashfetchr.Core.Custody.{Event, PhotoRef}
use dashfetchr.Core.Custody.Hashing.{Digest, Payload, payload, milli, delimiter, compute_hash}
use dashfetchr.Core.Custody.Ledger.{verify_from}
use dashfetchr.Infra.Postgres.Json.{Codec, marshal_json, unmarshal_json}
use dashfetchr.Infra.Postgres.Json.Laws.{
  IsKept, marshalled, unmarshal_bytes, unmarshal_kept, or_blank-null_if_empty,
}
use dashfetchr.Infra.Postgres.CustodyRepo.{
  Row, Database, row_of, scan_custody_event, kept, keep_time?, keep_json?, marshal_option,
  unmarshal_option, marshal_photos, zero_actor, zero_point, zero_signature,
}

abbrev pub as_kept : Database → Event → Event
as_kept db e = record e {
  occurred_at = db.keep_time e.occurred_at;
  carrier_time = keep_time? db e.carrier_time;
}

-- The hash, and what Verify says, read a time's milliseconds alone.
module _ (db : Database) (d : Digest)
    (milliseconds : (t : Time) → unix_milli (db.keep_time t) ≡ unix_milli t) where
  milli-kept : (o : Option Time) → milli (keep_time? db o) ≡ milli o
  unfolding milli
  milli-kept none = refl
  milli-kept (some t) = ap (λ m. some m) (milliseconds t)

  payload-as_kept : (e : Event) → payload (as_kept db e) ≡ payload e
  unfolding payload
  payload-as_kept e =
      let at = milliseconds e.occurred_at in let carrier = milli-kept e.carrier_time in ground arith

  compute_hash-as_kept : (e : Event) → compute_hash d (as_kept db e) ≡ compute_hash d e
  unfolding compute_hash
  compute_hash-as_kept e =
      ap (λ (p : Payload). d.marshal p >>= λ body. ok (d.sha256_hex (delimiter e.prev_hash body)))
        (payload-as_kept e)

  -- What Verify says of events is what it says after the database has kept their times, if it keeps the
  -- milliseconds of each.
  pub verify_from-as_kept :
      (i : ℕ) (expected : Bytes) (es : List Event)
      → verify_from d i expected (map (as_kept db) es) ≡ verify_from d i expected es
  unfolding verify_from
  verify_from-as_kept i expected [] = refl
  verify_from-as_kept i expected (e ∷ es) =
      let same = compute_hash-as_kept e in
      let rest = verify_from-as_kept (suc i) e.hash es in
      elim (Result-cases (compute_hash d e)) [
        | inr (x, p) ↦ ground arith
        | inl (actual, p) ↦ ground arith
      ]

-- What the codec makes of a value that is there is not empty, and once it is kept neither empty nor null, and is
-- decoded to the value.
abbrev pub IsObject {ℓ} : {A : Type ℓ} → (Bytes → Bytes) → Codec A → Option A → Type ℓ
IsObject {A = A} keep c o =
    (v : A) (b : Bytes)
    → o ≡ some v
    → c.marshal v ≡ ok b
    → (b ≢ []) × (keep b ≢ []) × (keep b ≢ codes "null") × (c.unmarshal (keep b) ≡ ok v)

-- What the database keeps of an event: JSON texts as the values that they encode, the text of an object as one
-- that is not null, and the texts of no photos and of no metadata.
pub record IsFaithful (db : Database) (e : Event) : Type 0 where
  pub actor : IsKept db.keep_json db.actors e.actor
  pub location : IsObject db.keep_json db.locations e.location
  pub photos : IsKept db.keep_json db.photos e.photos
  pub signature : IsObject db.keep_json db.signatures e.signature
  pub no_photos :
      (db.keep_json (codes "[]") ≢ []) × (db.photos.unmarshal (db.keep_json (codes "[]")) ≡ ok [])
  pub no_metadata : db.keep_json (codes "{}") ≡ codes "{}"

module _ {ℓ} {A : Type ℓ} (db : Database) (c : Codec A) (zero : A) where
  read_back :
      (bs : Bytes) (v : A)
      → bs ≢ []
      → bs ≢ codes "null"
      → unmarshal_json c zero bs ≡ ok v
      → unmarshal_option c zero bs ≡ ok (some v)
  unfolding unmarshal_option
  read_back [] v h k e = absurd (h refl)
  read_back (b ∷ bs) v h k e = elim (Bool-cases (bytes_eq (b ∷ bs) (codes "null"))) [
    | inl same ↦ absurd (k (bytes_eq→eq (b ∷ bs) (codes "null") same))
    | inr other ↦ ground arith
  ]

  kept_text : (bs : Bytes) → bs ≢ [] → keep_json? db bs ≡ db.keep_json bs
  kept_text [] h = absurd (h refl)
  kept_text (b ∷ bs) h = refl

  option_kept :
      (o : Option A) {b : Bytes}
      → IsObject db.keep_json c o
      → marshal_option c o ≡ ok b
      → unmarshal_option c zero (keep_json? db b) ≡ ok o
  unfolding marshal_option unmarshal_option
  option_kept none {b} laws h = let empty : b ≡ [] = ground arith in rw empty
  option_kept (some v) {b} laws h =
      let m = marshalled c v h in
      let (text, there, object, decoded) = laws v b refl m in
      rw (kept_text b text) (
        read_back (db.keep_json b) v there object
          (unmarshal_bytes c zero (db.keep_json b) there ∙ (rw decoded)))

photos_kept :
    (db : Database) (e : Event) (ps : List PhotoRef) {b : Bytes}
    → IsFaithful db e
    → e.photos ≡ ps
    → marshal_photos db.photos ps ≡ ok b
    → unmarshal_json db.photos [] (db.keep_json b) ≡ ok ps
unfolding marshal_photos
photos_kept db e [] {b} laws same h =
    let empty : b ≡ codes "[]" = ground arith in
    let (there, decoded) = laws.no_photos in
    rw empty (unmarshal_bytes db.photos [] (db.keep_json (codes "[]")) there ∙ (rw decoded))
photos_kept db e (p ∷ ps) laws same h =
    unmarshal_kept db.keep_json db.photos [] (p ∷ ps)
      (subst (IsKept db.keep_json db.photos) same laws.photos) h

-- An event without metadata whose row could be made is read back from what the database keeps of the row, with
-- the times that the database keeps.
pub scan_custody_event-row_of :
    (db : Database) (e : Event) {r : Row}
    → IsFaithful db e
    → e.metadata ≡ []
    → row_of db e ≡ ok r
    → scan_custody_event db (kept db r) ≡ ok (as_kept db e)
unfolding row_of scan_custody_event
scan_custody_event-row_of db e {r} laws bare h =
    elim (Result-cases (marshal_json db.actors e.actor)) [
      | inr (x, p) ↦ absurd (ground arith)
      | inl (actor, p) ↦ elim (Result-cases (marshal_option db.locations e.location)) [
        | inr (x, q) ↦ absurd (ground arith)
        | inl (location, q) ↦ elim (Result-cases (marshal_photos db.photos e.photos)) [
          | inr (x, u) ↦ absurd (ground arith)
          | inl (photos, u) ↦ elim (Result-cases (marshal_option db.signatures e.signature)) [
            | inr (x, w) ↦ absurd (ground arith)
            | inl (signature, w) ↦
                let a = unmarshal_kept db.keep_json db.actors zero_actor e.actor laws.actor p in
                let b = option_kept db db.locations zero_point e.location laws.location q in
                let c = photos_kept db e e.photos laws refl u in
                let k = option_kept db db.signatures zero_signature e.signature laws.signature w in
                let reason = or_blank-null_if_empty e.reason in
                let braces = laws.no_metadata in ground arith
          ]
        ]
      ]
    ]
