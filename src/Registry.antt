-- ===== src/Registry.antt =====
-- internal/carrier/registry.go: the carriers' adapters by identifier and version. The mutex makes each
-- method one step. A nil adapter is `none`; `order` is the order in which `range` visits `primary`.
pub mod Soundness
pub mod Roles
pub mod Wire
use dashfetchr.Base.{
  ℕ, Bool, true, false, not, ◌||◌, Option, none, some, String, List, [], ◌∷◌, if◌then◌else◌, str_eq,
}
use dashfetchr.Base.Maps.{Map, Eq, lookup, insert, string_eq, pair_eq}
use dashfetchr.Core.Errors.{
  Error, nil_adapter, missing_id, already_registered, not_registered, disabled, Result, ok, err,
}
use dashfetchr.Ports.Carrier.{Carrier, CarrierRole}
use dashfetchr.Routing.Engine.{has_role}

-- `key{ID, Version}`
abbrev pub Key : Type 0
Key = String × String

pub record Registry : Type 0 where
  pub by_id : Map String (Map String Carrier)
  pub primary : Map String String
  pub enabled : Map Key Bool

abbrev pub new_registry : Registry
new_registry = record { by_id = []; primary = []; enabled = [] }

-- `m[k]` for a map of maps, and for a map of flags: a missing key reads the zero value.
abbrev pub or_empty {ℓ κ} : {K : Type ℓ} {V : Type κ} → Option (Map K V) → Map K V
or_empty none = []
or_empty (some m) = m

abbrev pub or_false : Option Bool → Bool
or_false none = false
or_false (some b) = b

-- r.byID[id][version], and whether it is there.
unfoldable pub adapter_at : Registry → String → String → Option Carrier
adapter_at r id version = lookup version (or_empty (lookup id r.by_id))

-- r.enabled[key{id, version}]
unfoldable pub is_enabled : Registry → String → String → Bool
is_enabled r id version = or_false (lookup (id, version) r.enabled)

abbrev is_some {ℓ} : {A : Type ℓ} → Option A → Bool
is_some none = false
is_some (some a) = true

-- `if _, set := r.primary[id]; !set`
abbrev set_default : String → String → Map String String → Map String String
set_default id version primary =
    if is_some (lookup id primary) then primary else insert id version primary

unfoldable pub add : String → String → Carrier → Registry → Registry
unfolding lookup insert
add id version c r = record {
  by_id = insert id (insert version c (or_empty (lookup id r.by_id))) r.by_id;
  primary = set_default id version r.primary;
  enabled = insert (id, version) true r.enabled;
}

register_adapter : String → Carrier → Registry → Registry × Option Error
unfolding adapter_at add
register_adapter version c r =
    let id = c.capabilities.id in
    if str_eq id ""
    then (r, some missing_id)
    else if is_some (adapter_at r id version)
    then (r, some (already_registered id version))
    else (add id version c r, none)

unfoldable pub register : String → Option Carrier → Registry → Registry × Option Error
unfolding register_adapter
register version none r = (r, some nil_adapter)
register version (some c) r = register_adapter version c r

unfoldable pub set_primary : String → String → Registry → Registry × Option Error
unfolding adapter_at
set_primary id version r =
    if is_some (adapter_at r id version)
    then (record r { primary = insert id version r.primary }, none)
    else (r, some (not_registered id version))

unfoldable pub set_enabled : String → String → Bool → Registry → Registry
set_enabled id version enabled r = record r { enabled = insert (id, version) enabled r.enabled }

get_primary : String → Option String → Registry → Result (Option Carrier)
unfolding adapter_at is_enabled
get_primary id none r = err (not_registered id "")
get_primary id (some v) r =
    if not (is_enabled r id v) then err (disabled id v) else ok (adapter_at r id v)

-- `Get`. The adapter is nil if the primary version is not there.
unfoldable pub get : String → Registry → Result (Option Carrier)
unfolding get_primary
get id r = get_primary id (lookup id r.primary) r

get_adapter : String → String → Option Carrier → Registry → Result Carrier
unfolding is_enabled
get_adapter id version none r = err (not_registered id version)
get_adapter id version (some c) r =
    if not (is_enabled r id version) then err (disabled id version) else ok c

unfoldable pub get_version : String → String → Registry → Result Carrier
unfolding get_adapter adapter_at
get_version id version r = get_adapter id version (adapter_at r id version) r

-- One round of the loop of `ListByRole`, before what the later rounds append. `none` is the nil
-- dereference of an adapter that is not there.
list_round :
    Registry → CarrierRole → String → String → Option (List Carrier) → Option (List Carrier)
list_round r role id version none = none
list_round r role id version (some rest) =
    if not (is_enabled r id version) then some rest else elim (adapter_at r id version) [
      | none ↦ none
      | some c ↦ some (if has_role c.capabilities.roles role then c ∷ rest else rest)
    ]

list_primaries : Registry → CarrierRole → Map String String → Option (List Carrier)
unfolding list_round
list_primaries r role [] = some []
list_primaries r role ((id, version) ∷ m) = list_round r role id version (list_primaries r role m)

all_primaries : Registry → Map String String → List (Option Carrier)
all_primaries r [] = []
all_primaries r ((id, version) ∷ m) =
    let rest = all_primaries r m in
    if is_enabled r id version then adapter_at r id version ∷ rest else rest

module _ (order : Map String String → Map String String) where
  unfoldable pub list_by_role : CarrierRole → Registry → Option (List Carrier)
  unfolding list_primaries
  list_by_role role r = list_primaries r role (order r.primary)

  -- `All`
  unfoldable pub all_enabled : Registry → List (Option Carrier)
  unfolding all_primaries
  all_enabled r = all_primaries r (order r.primary)
