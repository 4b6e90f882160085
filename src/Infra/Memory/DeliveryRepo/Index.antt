-- ===== src/Infra/Memory/DeliveryRepo/Index.antt =====
-- The index by parcel of the store of deliveries (internal/infra/memory/delivery_repo.go).
use dashfetchr.Base.{
  true, ◌&&◌, ◌||◌, some, ◌≡◌, sym, ◌∙◌, ap, List, [], ◌∷◌, ◌++◌, arith, if◌then◌else◌, ◌==◌,
  ==_iff, Bool-cases, inl, inr,
}
use dashfetchr.Base.Uuid.{Uuid}
use dashfetchr.Base.Maps.{lookup, nat_eq, lookup-insert, or_nil}
use dashfetchr.Core.Delivery.{Delivery}
use dashfetchr.Infra.Memory.DeliveryRepo.{DeliveryRepo, new, has_id, save}

-- `byAWB[a]` as the store reads it.
abbrev pub ids_of : DeliveryRepo → Uuid → List Uuid
ids_of r a = or_nil (lookup a r.by_awb)

-- Every stored delivery stands under its identifier and in the list of its parcel, and a list names
-- only deliveries of its parcel.
pub record IsIndexed (r : DeliveryRepo) : Type 0 where
  pub named : (id : Uuid) (d : Delivery) → lookup id r.by_id ≡ some d → d.id ≡ id
  pub complete :
      (id : Uuid) (d : Delivery) → lookup id r.by_id ≡ some d → has_id id (ids_of r d.awb_id) ≡ true
  pub sound :
      (a id : Uuid)
      → has_id id (ids_of r a) ≡ true
      → (d : Delivery) × (lookup id r.by_id ≡ some d) × (d.awb_id ≡ a)

has_id-append :
    (id j : Uuid) (ids : List Uuid) → has_id id (ids ++ j ∷ []) ≡ (has_id id ids || (j == id))
unfolding has_id
has_id-append id j [] = ground arith
has_id-append id j (k ∷ ids) = ground (arith, has_id-append id j ids)

-- After `Save` the list of a parcel names what it named, and the delivery if it is the parcel's.
has_id-save :
    (d : Delivery) (r : DeliveryRepo) (a id : Uuid)
    → has_id id (ids_of (save d r) a)
      ≡ (has_id id (ids_of r a) || ((d.awb_id == a) && (d.id == id)))
unfolding save
has_id-save d r a id = elim (Bool-cases (has_id d.id (ids_of r d.awb_id))) [
  | inl old ↦ rw old (ground arith)
  | inr fresh ↦ rw fresh (
      rw (lookup-insert d.awb_id a (ids_of r d.awb_id ++ d.id ∷ []) r.by_awb)
        (ground (arith, has_id-append id d.id (ids_of r d.awb_id))))
]

pub by_id-save :
    (d : Delivery) (r : DeliveryRepo) (id : Uuid)
    → lookup id (save d r).by_id ≡ (if d.id == id then some d else lookup id r.by_id)
unfolding save
by_id-save d r id = lookup-insert d.id id d r.by_id

-- A new store is indexed.
pub new-IsIndexed : IsIndexed new
unfolding lookup has_id
new-IsIndexed = record {
  named = λ id d h. absurd (ground arith);
  complete = λ id d h. absurd (ground arith);
  sound = λ a id h. absurd (ground arith);
}

module _ (d : Delivery) (r : DeliveryRepo) (ix : IsIndexed r)
    (stays : (old : Delivery) → lookup d.id r.by_id ≡ some old → old.awb_id ≡ d.awb_id) where
  still_named : (id : Uuid) (k : Delivery) → lookup id (save d r).by_id ≡ some k → k.id ≡ id
  still_named id k h = ground (arith, by_id-save d r id, ix.named id k)

  still_complete :
      (id : Uuid) (k : Delivery)
      → lookup id (save d r).by_id ≡ some k
      → has_id id (ids_of (save d r) k.awb_id) ≡ true
  still_complete id k h =
      ground (arith, by_id-save d r id, has_id-save d r k.awb_id id, ix.complete id k)

  parcel :
      (a id : Uuid) → has_id id (ids_of (save d r) a) ≡ true → (d.id == id) ≡ true → d.awb_id ≡ a
  parcel a id h same = elim (Bool-cases (d.awb_id == a)) [
    | inl e ↦ (==_iff d.awb_id a).0 e
    | inr e ↦
        let (k, l, p) = ix.sound a id (ground (arith, has_id-save d r a id)) in
        let at : d.id ≡ id = (==_iff d.id id).0 same in
        sym (stays k (ap (λ j. lookup j r.by_id) at ∙ l)) ∙ p
  ]

  still_sound :
      (a id : Uuid)
      → has_id id (ids_of (save d r) a) ≡ true
      → (k : Delivery) × (lookup id (save d r).by_id ≡ some k) × (k.awb_id ≡ a)
  still_sound a id h = elim (Bool-cases (d.id == id)) [
    | inr other ↦
        let (k, l, p) = ix.sound a id (ground (arith, has_id-save d r a id)) in
        (k, by_id-save d r id ∙ (rw other l), p)
    | inl same ↦ (d, by_id-save d r id ∙ (rw same), parcel a id h same)
  ]

  -- `Save` keeps the index, for a delivery that is new or stays with its parcel.
  pub save-IsIndexed : IsIndexed (save d r)
  save-IsIndexed = record { named = still_named; complete = still_complete; sound = still_sound }
