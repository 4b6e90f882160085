-- ===== src/Routing/Eligibility.antt =====
-- Which carriers the engine considers (internal/core/routing/engine.go, eligible).
use dashfetchr.Base.{
  uncons, true, false, ◌≡◌, ◌↔◌, sym, subst, List, [], ◌∷◌, arith, Bool-cases, inl, inr,
}
use dashfetchr.Base.Float64.{lt_f}
use dashfetchr.Ports.Carrier.{Carrier, Capabilities, CarrierRole, locker, ShipmentRequest}
use dashfetchr.Routing.Dimensions.{exceeds_dims}
use dashfetchr.Routing.Engine.{has_role, supports_pickup, is_skipped, eligible}
use mathlib.Core.List.{Memᴰ}

-- A carrier fits a shipment by its declared capabilities.
pub record Fits (req : ShipmentRequest) (role : CarrierRole) (caps : Capabilities) : Type 0 where
  pub role_matches : has_role caps.roles role ≡ true
  pub weight_within : lt_f caps.max_weight_kg req.pkg.weight_kg ≡ false
  pub dimensions_within : exceeds_dims req.pkg caps.max_dimensions_cm ≡ false
  pub pickup_supported : supports_pickup caps req.pickup.type ≡ true
  pub locker_supported : req.pickup.type ≡ locker → caps.supports_locker ≡ true

pub is_skipped_iff :
    (req : ShipmentRequest) (role : CarrierRole) (caps : Capabilities)
    → (is_skipped req role caps ≡ false) ↔ Fits req role caps
unfolding is_skipped
is_skipped_iff req role caps = (
  (λ h. record {
    role_matches = ground arith;
    weight_within = ground arith;
    dimensions_within = ground arith;
    pickup_supported = ground arith;
    locker_supported = λ e. ground arith;
  }),
  λ f. ground (arith, f.locker_supported),
)

module _ (req : ShipmentRequest) (role : CarrierRole) where
  eligible_skip :
      (d : Carrier) (cs : List Carrier)
      → is_skipped req role d.capabilities ≡ true
      → eligible req role (d ∷ cs) ≡ eligible req role cs
  unfolding eligible
  eligible_skip d cs h = rw h

  eligible_take :
      (d : Carrier) (cs : List Carrier)
      → is_skipped req role d.capabilities ≡ false
      → eligible req role (d ∷ cs) ≡ d ∷ eligible req role cs
  unfolding eligible
  eligible_take d cs h = simp h

  considered :
      (cs : List Carrier) (c : Carrier)
      → Memᴰ c (eligible req role cs)
      → Memᴰ c cs × Fits req role c.capabilities
  considered [] c h = absurd (unfold eligible in (elim h [ ]))
  considered (d ∷ cs) c h = elim (Bool-cases (is_skipped req role d.capabilities)) [
    | inl t ↦
        let (m, f) = considered cs c (subst (Memᴰ c) (eligible_skip d cs t) h) in (Memᴰ.tail m, f)
    | inr t ↦ elim (uncons (subst (Memᴰ c) (eligible_take d cs t) h)) [
      | inl same ↦ (
        Memᴰ.head same,
        subst (λ (x : Carrier). Fits req role x.capabilities) (sym same)
            ((is_skipped_iff req role d.capabilities).0 t),
      )
      | inr m ↦ let (m', f) = considered cs c m in (Memᴰ.tail m', f)
    ]
  ]

  considers :
      (c : Carrier) {cs : List Carrier}
      → Memᴰ c cs
      → Fits req role c.capabilities
      → Memᴰ c (eligible req role cs)
  considers c (Memᴰ.head {x = d} {xs = cs} same) f =
      let fits = subst (λ (x : Carrier). Fits req role x.capabilities) same f in
      subst (Memᴰ c) (sym (eligible_take d cs ((is_skipped_iff req role d.capabilities).1 fits)))
        (Memᴰ.head same)
  considers c (Memᴰ.tail {x = d} {xs = cs} m) f =
      let rest = considers c m f in
      elim (Bool-cases (is_skipped req role d.capabilities)) [
        | inl t ↦ subst (Memᴰ c) (sym (eligible_skip d cs t)) rest
        | inr t ↦ subst (Memᴰ c) (sym (eligible_take d cs t)) (Memᴰ.tail rest)
      ]

  -- The engine considers exactly the carriers of the registry that have the role, carry the weight and
  -- the dimensions, support the kind of pickup, and can open a locker where the pickup is at one.
  pub mem-eligible :
      (cs : List Carrier) (c : Carrier)
      → Memᴰ c (eligible req role cs) ↔ (Memᴰ c cs × Fits req role c.capabilities)
  mem-eligible cs c = (considered cs c, λ p. considers c p.0 p.1)
