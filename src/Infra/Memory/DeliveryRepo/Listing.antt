-- ===== src/Infra/Memory/DeliveryRepo/Listing.antt =====
-- What `ListByState` of the store of deliveries returns (internal/infra/memory/delivery_repo.go).
use dashfetchr.Base.{
  ℕ, ◌≤◌, ◌<◌, ◌++◌, All, All-append, length, length-append, leb, ◌≡◌, List, [], ◌∷◌, arith,
  Bool-cases, inl, inr,
}
use dashfetchr.Base.Int64.{ℤ}
use dashfetchr.Base.Uuid.{Uuid}
use dashfetchr.Base.Maps.{Map}
use dashfetchr.Core.Delivery.States.{State, same_state, same_state_iff}
use dashfetchr.Core.Delivery.{Delivery}
use dashfetchr.Infra.Memory.DeliveryRepo.{DeliveryRepo, collect, limit_of, list_by_state}

abbrev pub IsIn : State → Delivery → Type 0
IsIn state d = d.state ≡ state

module _ (state : State) (limit : ℕ) where
  collect_bounds :
      (out : List Delivery) (m : Map Uuid Delivery)
      → All (IsIn state) out
      → length out < limit
      → All (IsIn state) (collect state limit out m) × (length (collect state limit out m) ≤ limit)
  unfolding collect
  collect_bounds out [] a l = (a, omega arith)
  collect_bounds out ((id, d) ∷ m) a l = elim (Bool-cases (same_state d.state state)) [
    | inr f ↦ rw f (collect_bounds out m a l)
    | inl t ↦ rw t (
        let grown =
          All-append (IsIn state) out (d ∷ []) a ((same_state_iff d.state state).0 t, tt) in
        let size = length-append out (d ∷ []) in
        elim (Bool-cases (leb limit (length (out ++ d ∷ [])))) [
          | inl full ↦ rw full (grown, omega arith)
          | inr room ↦ rw room (collect_bounds (out ++ d ∷ []) m grown (ground arith))
        ])
  ]

-- `ListByState` returns only deliveries in the state that was asked for, and at most as many as the
-- limit, which is 50 where the caller's is not positive.
pub list_by_state_bounds :
    (order : Map Uuid Delivery → Map Uuid Delivery) (state : State) (limit : ℤ) (r : DeliveryRepo)
    → All (IsIn state) (list_by_state order state limit r)
      × (length (list_by_state order state limit r) ≤ limit_of limit)
unfolding list_by_state
list_by_state_bounds order state limit r =
    collect_bounds state (limit_of limit) [] (order r.by_id) tt (ground arith)
