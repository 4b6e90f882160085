-- ===== src/Infra/Memory/DeliveryRepo.antt =====
-- internal/infra/memory/delivery_repo.go: deliveries by identifier, with an index by parcel. Values are
-- cloned on both ways, so that a store shares nothing with its clients. `order` is the order in which
-- `range` visits `byID`.
pub mod Lookups
pub mod Listing
pub mod Index
use dashfetchr.Base.{
  ℕ, Bool, true, false, ◌&&◌, ◌||◌, Option, none, some, ◌≡◌, refl, sym, ◌∙◌, ap, String, List, [],
  ◌∷◌, ◌++◌, arith, if◌then◌else◌, ◌==◌, ==_iff, leb, length, str_eq, ◌≤◌, ◌<◌, All, Bool-cases,
  Option-cases, inl, inr, length-append, ◌⊎◌,
}
use dashfetchr.Base.Int64.{ℤ, pos, pos_part, ltb_ℤ}
use dashfetchr.Base.Uuid.{Uuid}
use dashfetchr.Base.Maps.{Map, lookup, insert, or_nil, nat_eq, lookup-insert, IsOrder}
use dashfetchr.Core.Errors.{Error, not_found, Result, ok, err}
use dashfetchr.Core.Delivery.States.{State, same_state, same_state_iff}
use dashfetchr.Core.Delivery.{Delivery}

pub record DeliveryRepo : Type 0 where
  pub by_id : Map Uuid Delivery
  pub by_awb : Map Uuid (List Uuid)

abbrev pub new : DeliveryRepo
new = record { by_id = []; by_awb = [] }

-- The loop that sets `found`.
unfoldable pub has_id : Uuid → List Uuid → Bool
has_id id [] = false
has_id id (j ∷ js) = j == id || has_id id js

-- `Save` of a delivery that is there; a nil pointer has no model.
unfoldable pub save : Delivery → DeliveryRepo → DeliveryRepo
unfolding has_id
save d r =
    let ids = or_nil (lookup d.awb_id r.by_awb) in
    record {
      by_id = insert d.id d r.by_id;
      by_awb = if has_id d.id ids then r.by_awb else insert d.awb_id (ids ++ d.id ∷ []) r.by_awb;
    }

or_missing : Option Delivery → Result Delivery
or_missing none = err not_found
or_missing (some d) = ok d

unfoldable pub get_by_id : Uuid → DeliveryRepo → Result Delivery
unfolding or_missing
get_by_id id r = or_missing (lookup id r.by_id)

-- The loop of `ListByAWB`; an identifier that is not there is passed over.
listed : Map Uuid Delivery → List Uuid → List Delivery
listed m [] = []
listed m (id ∷ ids) =
    let rest = listed m ids in elim (lookup id m) [ none ↦ rest | some d ↦ d ∷ rest ]

unfoldable pub list_by_awb : Uuid → DeliveryRepo → List Delivery
unfolding listed
list_by_awb awb_id r = listed r.by_id (or_nil (lookup awb_id r.by_awb))

abbrev pub is_carried_as : String → String → Delivery → Bool
is_carried_as carrier_id external_id d =
    str_eq d.carrier_id carrier_id && str_eq d.carrier_external_id external_id

unfoldable pub first_carried : String → String → Map Uuid Delivery → Result Delivery
first_carried carrier_id external_id [] = err not_found
first_carried carrier_id external_id ((id, d) ∷ m) =
    if is_carried_as carrier_id external_id d then ok d else first_carried carrier_id external_id m

-- The loop of `ListByState`, with what it has collected.
collect : State → ℕ → List Delivery → Map Uuid Delivery → List Delivery
collect state limit out [] = out
collect state limit out ((id, d) ∷ m) =
    let stop = out ++ d ∷ [] in
    let more = collect state limit stop m in
    let skip = collect state limit out m in
    if same_state d.state state then if leb limit (length stop) then stop else more else skip

-- `if limit <= 0 { limit = 50 }`
abbrev pub limit_of : ℤ → ℕ
limit_of limit = if ltb_ℤ (pos 0) limit then pos_part limit else 50

module _ (order : Map Uuid Delivery → Map Uuid Delivery) where
  unfoldable pub get_by_carrier_external_id : String → String → DeliveryRepo → Result Delivery
  unfolding first_carried
  get_by_carrier_external_id carrier_id external_id r =
      first_carried carrier_id external_id (order r.by_id)

  unfoldable pub list_by_state : State → ℤ → DeliveryRepo → List Delivery
  unfolding collect
  list_by_state state limit r = collect state (limit_of limit) [] (order r.by_id)
