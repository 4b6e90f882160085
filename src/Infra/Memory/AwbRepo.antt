-- ===== src/Infra/Memory/AwbRepo.antt =====
-- internal/infra/memory/awb_repo.go: parcels by identifier, with an index by internal AWB.
use dashfetchr.Base.{
  Bytes, bytes_eq, bytes_eq_refl, bytes_eq→eq, true, Option, none, some, ◌≡◌, ◌≢◌, ◌↔◌, arith,
  if◌then◌else◌, ◌==◌, [], Option-cases, inl, inr, ◌∙◌, Bool-cases,
}
use dashfetchr.Base.Uuid.{Uuid}
use dashfetchr.Base.Maps.{Map, Eq, lookup, insert, nat_eq, lookup-insert, lookup-insert_self}
use dashfetchr.Core.Errors.{not_found, Result, ok, err}
use dashfetchr.Core.Awb.{Awb}

pub bytes_iff : (xs ys : Bytes) → (bytes_eq xs ys ≡ true) ↔ (xs ≡ ys)
bytes_iff xs ys = (bytes_eq→eq xs ys, λ h. rw h (bytes_eq_refl ys))

instance abbrev pub bytes_key : Eq Bytes
bytes_key = record { beq = bytes_eq; beq_iff = bytes_iff }

pub record AwbRepo : Type 0 where
  pub by_id : Map Uuid Awb
  pub by_awb : Map Bytes Uuid

abbrev pub new : AwbRepo
new = record { by_id = []; by_awb = [] }

-- `Save` of a parcel that is there; a nil pointer has no model.
unfoldable pub save : Awb → AwbRepo → AwbRepo
save a r = record { by_id = insert a.id a r.by_id; by_awb = insert a.internal_awb a.id r.by_awb }

-- `panic` is the nil dereference in `cloneAWB` of a parcel that the index names and the map lacks.
pub data Lookup : Type 0 where
  returns : Result Awb → Lookup
  panic : Lookup

or_missing : Option Awb → Result Awb
or_missing none = err not_found
or_missing (some a) = ok a

unfoldable pub get_by_id : Uuid → AwbRepo → Result Awb
unfolding or_missing
get_by_id id r = or_missing (lookup id r.by_id)

dereference : Option Awb → Lookup
dereference none = panic
dereference (some a) = returns (ok a)

through : Option Uuid → AwbRepo → Lookup
unfolding dereference
through none r = returns (err not_found)
through (some id) r = dereference (lookup id r.by_id)

unfoldable pub get_by_internal_awb : Bytes → AwbRepo → Lookup
unfolding through
get_by_internal_awb internal r = through (lookup internal r.by_awb) r

-- The index names only parcels that are there.
pub record IsIndexed (r : AwbRepo) : Type 0 where
  pub there :
      (internal : Bytes) (id : Uuid)
      → lookup internal r.by_awb ≡ some id
      → (a : Awb) × (lookup id r.by_id ≡ some a)

pub new-IsIndexed : IsIndexed new
unfolding lookup
new-IsIndexed = record { there = λ internal id h. absurd (ground arith) }

present :
    (a : Awb) (r : AwbRepo) (id : Uuid) {b : Awb}
    → lookup id r.by_id ≡ some b
    → (c : Awb) × (lookup id (save a r).by_id ≡ some c)
unfolding save
present a r id {b} h = elim (Bool-cases (a.id == id)) [
  | inl same ↦ (a, lookup-insert a.id id a r.by_id ∙ (rw same))
  | inr other ↦ (b, lookup-insert a.id id a r.by_id ∙ (rw other h))
]

index-save :
    (a : Awb) (r : AwbRepo) (internal : Bytes)
    → lookup internal (save a r).by_awb
      ≡ (if bytes_eq a.internal_awb internal then some a.id else lookup internal r.by_awb)
unfolding save
index-save a r internal = lookup-insert a.internal_awb internal a.id r.by_awb

own : (a : Awb) (r : AwbRepo) → lookup a.id (save a r).by_id ≡ some a
unfolding save
own a r = lookup-insert_self a.id a r.by_id

save_there :
    (a : Awb) (r : AwbRepo)
    → IsIndexed r
    → (internal : Bytes) (id : Uuid) → lookup internal (save a r).by_awb ≡ some id
    → (c : Awb) × (lookup id (save a r).by_id ≡ some c)
save_there a r ix internal id h = elim (Bool-cases (bytes_eq a.internal_awb internal)) [
  | inl same ↦
      let here : a.id ≡ id = ground (arith, index-save a r internal) in (a, rw (← here) (own a r))
  | inr other ↦
      let (b, k) = ix.there internal id (ground (arith, index-save a r internal)) in
      present a r id k
]

-- `Save` keeps the index.
pub save-IsIndexed : (a : Awb) (r : AwbRepo) → IsIndexed r → IsIndexed (save a r)
save-IsIndexed a r ix = record { there = save_there a r ix }

-- On an indexed store `GetByInternalAWB` never dereferences nil.
pub get_by_internal_awb-ne-panic :
    (internal : Bytes) (r : AwbRepo) → IsIndexed r → get_by_internal_awb internal r ≢ panic
unfolding get_by_internal_awb
get_by_internal_awb-ne-panic internal r ix = elim (Option-cases (lookup internal r.by_awb)) [
  | inl n ↦ λ p. ground arith
  | inr (id, l) ↦ let (a, k) = ix.there internal id l in λ p. ground arith
]

-- A parcel that was saved is found by its identifier and by its internal AWB.
pub get-save :
    (a : Awb) (r : AwbRepo)
    → (get_by_id a.id (save a r) ≡ ok a)
      × (get_by_internal_awb a.internal_awb (save a r) ≡ returns (ok a))
unfolding get_by_id get_by_internal_awb save
get-save a r = (
  rw (lookup-insert_self a.id a r.by_id),
  rw (lookup-insert_self a.internal_awb a.id r.by_awb, lookup-insert_self a.id a r.by_id),
)
