-- ===== src/Infra/Postgres/DeliveryRepo/Upserts.antt =====
-- About what `Save` leaves in the table of deliveries (internal/infra/postgres/delivery_repo.go).
use dashfetchr.Base.{
  sym, ◌==◌, ==_iff, Option, none, some, ◌≡◌, ◌≢◌, arith, inl, inr, [], ◌∷◌, sym, ◌∙◌,
}
use dashfetchr.Base.Uuid.{Uuid}
use dashfetchr.Core.Errors.{ok, Result-cases}
use dashfetchr.Core.Delivery.{Delivery}
use dashfetchr.Infra.Postgres.Json.{or_blank, unmarshal_json}
use dashfetchr.Infra.Postgres.DeliveryRepo.{
  row_of, scan_delivery, kept, save, get_by_id, scan_rider,
}
use dashfetchr.Infra.Postgres.DeliveryRow.{
  Row, Table, Database, first, upsert, merge, zero_location,
}
use dashfetchr.Infra.Postgres.DeliveryRepo.RoundTrip.{
  IsFaithful, IsWindow, as_kept, scan_delivery-row_of,
}

-- The row that an upsert leaves under its identifier.
abbrev pub merged : Option Row → Row → Row
merged none new = new
merged (some old) new = merge old new

-- The delivery of that row: a row that was there keeps its parcel, its leg, its key and its time of creation.
abbrev pub resaved : Option Row → Delivery → Delivery
resaved none d = d
resaved (some old) d = record d {
  awb_id = old.awb_id;
  leg_number = old.leg_number;
  idempotency_key = or_blank old.idempotency_key;
  created_at = old.created_at;
}

first-upsert :
    (new : Row) (t : Table) (id : Uuid)
    → new.id ≡ id
    → first (λ r. r.id == id) (upsert new t) ≡ some (merged (first (λ r. r.id == id) t) new)
unfolding first upsert merge
first-upsert new [] id h = ground (arith, ==_iff new.id id)
first-upsert new (r ∷ t) id h = ground (arith, ==_iff new.id id, first-upsert new t id h)

first-upsert_other :
    (new : Row) (t : Table) (id : Uuid)
    → new.id ≢ id
    → first (λ r. r.id == id) (upsert new t) ≡ first (λ r. r.id == id) t
unfolding first upsert merge
first-upsert_other new [] id h = ground arith
first-upsert_other new (r ∷ t) id h = ground (arith, first-upsert_other new t id h)

module _ (db : Database) where
  scan-merge :
      (o : Option Row) (r : Row) {d : Delivery}
      → scan_delivery db r ≡ ok d
      → scan_delivery db (merged o r) ≡ ok (resaved o d)
  unfolding scan_delivery merge
  scan-merge none r h = h
  scan-merge (some old) r h =
      elim (Result-cases (unmarshal_json db.locations zero_location r.pickup)) [
        | inr (x, p) ↦ absurd (ground arith)
        | inl (pickup, p) ↦ elim (Result-cases (unmarshal_json db.locations zero_location r.drop)) [
          | inr (x, q) ↦ absurd (ground arith)
          | inl (drop, q) ↦ elim (Result-cases (scan_rider db r.rider)) [
            | inr (x, u) ↦ absurd (ground arith)
            | inl (rider, u) ↦ ground arith
          ]
        ]
      ]

  row_of-id : (d : Delivery) {r : Row} → row_of db d ≡ ok r → r.id ≡ d.id
  unfolding row_of
  row_of-id d h = ground arith

  -- A save that the database accepts is what GetByID then returns, with the times that the database keeps; a
  -- row that was there keeps its parcel, its leg, its key and its time of creation.
  pub get_by_id-save :
      (t : Table) (d : Delivery) {r : Row}
      → IsFaithful db d
      → db.unreadable ≡ none
      → IsWindow db d.scheduled_window_start d.scheduled_window_end
      → row_of db d ≡ ok r
      → db.refuses t r ≡ none
      → ((save db d t).1 ≡ none)
        × (get_by_id db d.id (save db d t).0
            ≡ ok (resaved (first (λ k. k.id == d.id) t) (as_kept db d)))
  unfolding save get_by_id
  get_by_id-save t d {r} laws readable window h accepted =
      let there = first-upsert (kept db r) t d.id (row_of-id d h) in
      let scanned =
        scan-merge (first (λ k. k.id == d.id) t) (kept db r)
          (scan_delivery-row_of db d laws window h) in
      (ground arith, ground arith)

  -- Whatever comes of a save, the other deliveries are read as before.
  pub get_by_id-save_other :
      (t : Table) (d : Delivery) (id : Uuid)
      → d.id ≢ id
      → get_by_id db id (save db d t).0 ≡ get_by_id db id t
  unfolding save get_by_id
  get_by_id-save_other t d id h = elim (Result-cases (row_of db d)) [
    | inr (x, p) ↦ ground arith
    | inl (r, p) ↦
        let same = row_of-id d p in
        let kept_first = first-upsert_other (kept db r) t id (λ e. h (sym same ∙ e)) in ground arith
  ]
