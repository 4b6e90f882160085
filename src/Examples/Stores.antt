-- ===== src/Examples/Stores.antt =====
-- Runs of the in-memory stores and of the registry (internal/infra/memory, internal/carrier).
use dashfetchr.Base.{
  ℕ, ◌≤◌, true, false, Option, none, some, ◌≡◌, ◌≢◌, ◌↔◌, refl, String, List, [], ◌∷◌, arith,
  length, All,
}
use dashfetchr.Base.Uuid.{Uuid}
use dashfetchr.Base.Maps.{Map, IsOrder, lookup, nat_eq, string_eq}
use dashfetchr.Core.Errors.{ok}
use dashfetchr.Core.Delivery.States.{assigned}
use dashfetchr.Infra.Memory.DeliveryRepo as DeliveryRepo
use dashfetchr.Infra.Memory.DeliveryRepo.Lookups.{get_by_carrier_external_id_ok}
use dashfetchr.Infra.Memory.DeliveryRepo.Index as Deliveries
use dashfetchr.Infra.Memory.AwbRepo as AwbRepo
use dashfetchr.Ports.Carrier.{Carrier, last_mile}
use dashfetchr.Registry.{Registry, new_registry, register, set_primary, list_by_role}
use dashfetchr.Registry.Soundness.{IsSound, new-IsSound, register-IsSound, set_primary-IsSound}
use dashfetchr.Registry.Roles.{IsListed, list_by_role_sound}
use dashfetchr.Examples.Fixtures.{waiting, delivery_in, parcel, cheap, as_stored}
use mathlib.Core.List.{Memᴰ}

pub as_stored-IsOrder : {A : Type 0} → IsOrder {A = A} as_stored
as_stored-IsOrder m a = ((λ h. h), λ h. h)

abbrev held : DeliveryRepo.DeliveryRepo
held = DeliveryRepo.save waiting DeliveryRepo.new

held-IsIndexed : Deliveries.IsIndexed held
unfolding lookup
held-IsIndexed =
    Deliveries.save-IsIndexed waiting DeliveryRepo.new Deliveries.new-IsIndexed
      λ old h. absurd (ground arith)

get_by_carrier_external_id_ok_example :
    (id : Uuid) × (Memᴰ (id, waiting) held.by_id)
    × (DeliveryRepo.is_carried_as "bolt_food" "B-1" waiting ≡ true)
unfolding DeliveryRepo.get_by_carrier_external_id DeliveryRepo.save dashfetchr.Base.Maps.insert
get_by_carrier_external_id_ok_example =
    get_by_carrier_external_id_ok as_stored as_stored-IsOrder "bolt_food" "B-1" held refl

save-IsIndexed_deliveries_example :
    Deliveries.IsIndexed (DeliveryRepo.save (delivery_in assigned) held)
unfolding lookup
save-IsIndexed_deliveries_example =
    Deliveries.save-IsIndexed (delivery_in assigned) held held-IsIndexed
      λ old h. ground (arith, h, Deliveries.by_id-save waiting DeliveryRepo.new 7)

get-save_example :
    (AwbRepo.get_by_id 5 (AwbRepo.save parcel AwbRepo.new) ≡ ok parcel)
    × (AwbRepo.get_by_internal_awb (1 ∷ 2 ∷ []) (AwbRepo.save parcel AwbRepo.new)
        ≡ AwbRepo.returns (ok parcel))
get-save_example = AwbRepo.get-save parcel AwbRepo.new

abbrev one : Registry
one = (register "v1" (some cheap) new_registry).0

abbrev two : Registry
two = (register "v2" (some cheap) one).0

one-IsSound : IsSound one
one-IsSound = register-IsSound "v1" (some cheap) new_registry new-IsSound

two-IsSound : IsSound two
two-IsSound = register-IsSound "v2" (some cheap) one one-IsSound

set_primary-IsSound_example : IsSound (set_primary "cheap" "v2" two).0
set_primary-IsSound_example = set_primary-IsSound "cheap" "v2" two two-IsSound

list_by_role_sound_example :
    (cs : List Carrier) × (list_by_role as_stored last_mile two ≡ some cs)
    × ((c : Carrier) → Memᴰ c cs ↔ IsListed two last_mile two.primary c)
list_by_role_sound_example =
    list_by_role_sound two last_mile as_stored as_stored-IsOrder two-IsSound
