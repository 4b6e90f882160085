-- ===== src/Infra/Memory/DeliveryRepo/Lookups.antt =====
-- What is read after a write to the store of deliveries (internal/infra/memory/delivery_repo.go).
use dashfetchr.Base.{
  subst, true, false, ◌≡◌, sym, ◌∙◌, ap, String, [], ◌∷◌, arith, if◌then◌else◌, ◌==◌, Bool-cases,
  inl, inr,
}
use dashfetchr.Base.Uuid.{Uuid}
use dashfetchr.Base.Maps.{Map, nat_eq, lookup-insert, IsOrder}
use dashfetchr.Core.Errors.{Error, not_found, ok, err}
use dashfetchr.Core.Delivery.{Delivery}
use dashfetchr.Infra.Memory.DeliveryRepo.{
  DeliveryRepo, save, get_by_id, first_carried, get_by_carrier_external_id, is_carried_as,
}
use mathlib.Core.List.{Memᴰ}

-- `Save` makes `GetByID` return the delivery that was saved under its identifier, and changes what it
-- returns for no other.
pub get_by_id-save :
    (d : Delivery) (id : Uuid) (r : DeliveryRepo)
    → get_by_id id (save d r) ≡ (if d.id == id then ok d else get_by_id id r)
unfolding get_by_id save
get_by_id-save d id r = rw (lookup-insert d.id id d r.by_id) (ground arith)

first_carried_ok :
    (c x : String) (m : Map Uuid Delivery) {d : Delivery}
    → first_carried c x m ≡ ok d
    → (id : Uuid) × (Memᴰ (id, d) m) × (is_carried_as c x d ≡ true)
unfolding first_carried
first_carried_ok c x [] h = absurd (ground arith)
first_carried_ok c x ((id, e) ∷ m) {d} h = elim (Bool-cases (is_carried_as c x e)) [
  | inl t ↦
      let same : e ≡ d = ground arith in
      (
        id,
        Memᴰ.head (ap (λ (k : Delivery). (id, k)) (sym same)),
        subst (λ k. is_carried_as c x k ≡ true) same t,
      )
  | inr f ↦ let (j, a, t) = first_carried_ok c x m (ground arith) in (j, Memᴰ.tail a, t)
]

missing :
    (c x : String) (m : Map Uuid Delivery) {y : Error} → first_carried c x m ≡ err y → y ≡ not_found
unfolding first_carried
missing c x [] h = ground arith
missing c x ((id, e) ∷ m) h = elim (Bool-cases (is_carried_as c x e)) [
  | inl t ↦ absurd (ground arith)
  | inr f ↦ missing c x m (ground arith)
]

passed_over :
    (c x : String) (id : Uuid) (e : Delivery) (m : Map Uuid Delivery) {y : Error}
    → first_carried c x ((id, e) ∷ m) ≡ err y
    → (is_carried_as c x e ≡ false) × (first_carried c x m ≡ err y)
unfolding first_carried
passed_over c x id e m h = elim (Bool-cases (is_carried_as c x e)) [
  | inl t ↦ absurd (ground arith)
  | inr f ↦ (f, ground arith)
]

none_carried :
    (c x : String) {p : Uuid × Delivery} {m : Map Uuid Delivery} {y : Error}
    → Memᴰ p m
    → first_carried c x m ≡ err y
    → is_carried_as c x p.1 ≡ false
none_carried c x (Memᴰ.head {x = z} {xs = m} q) h =
    ap (λ (p : Uuid × Delivery). is_carried_as c x p.1) q ∙ (passed_over c x z.0 z.1 m h).0
none_carried c x (Memᴰ.tail {x = z} {xs = m} a) h =
    none_carried c x a (passed_over c x z.0 z.1 m h).1

module _ (order : Map Uuid Delivery → Map Uuid Delivery) (visits : IsOrder order) (c x : String)
    (r : DeliveryRepo) where
  -- What `GetByCarrierExternalID` returns is in the store, and has the carrier and the carrier's
  -- number that were asked for.
  pub get_by_carrier_external_id_ok :
      {d : Delivery}
      → get_by_carrier_external_id order c x r ≡ ok d
      → (id : Uuid) × (Memᴰ (id, d) r.by_id) × (is_carried_as c x d ≡ true)
  unfolding get_by_carrier_external_id
  get_by_carrier_external_id_ok h =
      let (id, a, t) = first_carried_ok c x (order r.by_id) h in (id, (visits r.by_id _).0 a, t)

  -- Where it fails, the error is `ErrNotFound`, and no delivery of the store has them.
  pub get_by_carrier_external_id_err :
      {y : Error}
      → get_by_carrier_external_id order c x r ≡ err y
      → (y ≡ not_found)
        × ((id : Uuid) (d : Delivery) → Memᴰ (id, d) r.by_id → is_carried_as c x d ≡ false)
  unfolding get_by_carrier_external_id
  get_by_carrier_external_id_err h =
      (missing c x (order r.by_id) h, λ id d a. none_carried c x ((visits r.by_id (id, d)).1 a) h)
