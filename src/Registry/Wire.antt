-- ===== src/Registry/Wire.antt =====
-- internal/carrier/wire.go: the registry that the binaries start with. The one adapter is an argument.
use dashfetchr.Base.{
  Option, none, some, ◌≡◌, refl, sym, ap, ◌∙◌, subst, String, List, [], ◌∷◌, arith, All,
}
use dashfetchr.Base.Maps.{Map, lookup, string_eq, IsOrder}
use dashfetchr.Core.Errors.{Error, Result, ok, err}
use dashfetchr.Ports.Carrier.{Carrier, CarrierRole}
use dashfetchr.Registry.{Registry, new_registry, register, adapter_at, add, list_by_role}
use dashfetchr.Registry.Soundness.{IsSound, new-IsSound, register-IsSound, adapter_at-add}
use dashfetchr.Registry.Roles.{list_by_role_sound}
use mathlib.Core.List.{Memᴰ}

or_error : Registry × Option Error → Result Registry
or_error (r, none) = ok r
or_error (r, some x) = err x

unfoldable pub wire : Carrier → Result Registry
unfolding or_error
wire bolt = or_error (register "v1" (some bolt) new_registry)

all_of {ℓ} :
    {P : Carrier → Type ℓ} (cs : List Carrier) → ((c : Carrier) → Memᴰ c cs → P c) → All P cs
all_of [] f = tt
all_of (c ∷ cs) f = (f c (Memᴰ.head refl), all_of cs λ d m. f d (Memᴰ.tail m))

wire_adds :
    (bolt : Carrier) {r : Registry}
    → wire bolt ≡ ok r
    → (r ≡ (register "v1" (some bolt) new_registry).0)
      × (r ≡ add bolt.capabilities.id "v1" bolt new_registry)
unfolding wire register
wire_adds bolt h = ground arith

nothing_there : (j w : String) → adapter_at new_registry j w ≡ none
unfolding adapter_at lookup
nothing_there j w = refl

only_bolt :
    (bolt : Carrier) (j w : String) {c : Carrier}
    → adapter_at (add bolt.capabilities.id "v1" bolt new_registry) j w ≡ some c
    → c ≡ bolt
only_bolt bolt j w h =
    ground
      (arith, h, nothing_there j w, adapter_at-add bolt.capabilities.id "v1" bolt new_registry j w)

-- Every carrier that `ListByRole` returns from the registry that `Wire` makes is the one that was
-- registered.
pub list_by_role-wire :
    (bolt : Carrier) (order : Map String String → Map String String) (role : CarrierRole)
    {r : Registry} {cs : List Carrier}
    → IsOrder order
    → wire bolt ≡ ok r
    → list_by_role order role r ≡ some cs
    → All (λ c. c ≡ bolt) cs
list_by_role-wire bolt order role {r} {cs} visits h l =
    let (same, added) = wire_adds bolt h in
    let sound : IsSound r =
      subst IsSound (sym same) (register-IsSound "v1" (some bolt) new_registry new-IsSound) in
    let (ds, found, iff) = list_by_role_sound r role order visits sound in
    let lists : ds ≡ cs = ground (arith, l, found) in
    all_of cs λ c m.
      let e = (iff c).0 (subst (Memᴰ c) (sym lists) m) in
      only_bolt bolt e.id e.version (ap (λ q. adapter_at q e.id e.version) (sym added) ∙ e.adapter)
