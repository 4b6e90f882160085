-- ===== src/Registry/Roles.antt =====
-- What `ListByRole` and `Get` return on a sound registry (internal/carrier/registry.go).
use dashfetchr.Base.{
  true, false, some, ◌≡◌, ◌↔◌, refl, sym, ap, ◌∙◌, String, List, [], ◌∷◌, arith, Bool-cases, inl,
  inr, ◌⊎◌, uncons,
}
use dashfetchr.Base.Maps.{Map, string_eq, IsOrder}
use dashfetchr.Base.Entries.{lookup_of_mem}
use dashfetchr.Ports.Carrier.{Carrier, CarrierRole}
use dashfetchr.Routing.Engine.{has_role}
use dashfetchr.Registry.{Registry, adapter_at, is_enabled, list_primaries, list_round, list_by_role}
use dashfetchr.Registry.Soundness.{IsSound}
use mathlib.Core.List.{Memᴰ}

-- An entry of the primaries that is enabled, and whose adapter has the role.
pub record IsListed (r : Registry) (role : CarrierRole) (m : Map String String) (c : Carrier)
    : Type 0 where
  pub id : String
  pub version : String
  pub entry : Memᴰ (id, version) m
  pub is_on : is_enabled r id version ≡ true
  pub adapter : adapter_at r id version ≡ some c
  pub role_matches : has_role c.capabilities.roles role ≡ true

abbrev pub IsThere : Registry → Map String String → Type 0
IsThere r m =
    (id version : String)
    → Memᴰ (id, version) m
    → (c : Carrier) × (adapter_at r id version ≡ some c)

some-injective : {a b : Carrier} → some a ≡ some b → a ≡ b
some-injective h = cc

module _ (r : Registry) (role : CarrierRole) where
  later :
      {m : Map String String} {id version : String} (c : Carrier)
      → IsListed r role m c
      → IsListed r role ((id, version) ∷ m) c
  later c l = record {
    id = l.id;
    version = l.version;
    entry = Memᴰ.tail l.entry;
    is_on = l.is_on;
    adapter = l.adapter;
    role_matches = l.role_matches;
  }

  earlier :
      {m : Map String String} {id version : String} (c : Carrier)
      → IsListed r role ((id, version) ∷ m) c
      → IsListed r role m c
        ⊎ ((is_enabled r id version ≡ true)
            × (adapter_at r id version ≡ some c)
            × (has_role c.capabilities.roles role ≡ true))
  earlier {m} {id} {version} c l = elim (uncons l.entry) [
    | inl same ↦
        let i : l.id ≡ id = ap (λ (p : String × String). p.0) same in
        let v : l.version ≡ version = ap (λ (p : String × String). p.1) same in
        inr (
          ap (λ k. is_enabled r k version) (sym i) ∙ ap (is_enabled r l.id) (sym v) ∙ l.is_on,
          ap (λ k. adapter_at r k version) (sym i) ∙ ap (adapter_at r l.id) (sym v) ∙ l.adapter,
          l.role_matches,
        )
    | inr rest ↦ inl (record {
      id = l.id;
      version = l.version;
      entry = rest;
      is_on = l.is_on;
      adapter = l.adapter;
      role_matches = l.role_matches;
    })
  ]

  abbrev IsResult : Map String String → List Carrier → Type 0
  IsResult m cs =
      (list_primaries r role m ≡ some cs) × ((c : Carrier) → Memᴰ c cs ↔ IsListed r role m c)

  kept :
      (id version : String) (k : Carrier) (m : Map String String) (cs : List Carrier)
      → (is_enabled r id version ≡ true)
      → adapter_at r id version ≡ some k
      → has_role k.capabilities.roles role ≡ true
      → IsResult m cs
      → IsResult ((id, version) ∷ m) (k ∷ cs)
  unfolding list_primaries list_round
  kept id version k m cs e a h (eq, iff) = (
    ground arith,
    λ c. (
      λ p. elim (uncons p) [
        | inl same ↦ record {
          id = id;
          version = version;
          entry = Memᴰ.head refl;
          is_on = e;
          adapter = a ∙ ap (λ x. some x) (sym same);
          role_matches = ap (λ (x : Carrier). has_role x.capabilities.roles role) same ∙ h;
        }
        | inr rest ↦ later c ((iff c).0 rest)
      ],
      λ l. elim (earlier c l) [
        | inl rest ↦ Memᴰ.tail ((iff c).1 rest)
        | inr (f, b, g) ↦ Memᴰ.head (some-injective (sym b ∙ a))
      ],
    ),
  )

  passed :
      (id version : String) (k : Carrier) (m : Map String String) (cs : List Carrier)
      → (is_enabled r id version ≡ false) ⊎ (has_role k.capabilities.roles role ≡ false)
      → adapter_at r id version ≡ some k
      → IsResult m cs
      → IsResult ((id, version) ∷ m) cs
  unfolding list_primaries list_round
  passed id version k m cs no_entry a (eq, iff) = (
    ground arith,
    λ c. (
      λ p. later c ((iff c).0 p),
      λ l. elim (earlier c l) [
        | inl rest ↦ (iff c).1 rest
        | inr (f, b, g) ↦
            let same : c ≡ k = some-injective (sym b ∙ a) in
            let role_k = ap (λ (x : Carrier). has_role x.capabilities.roles role) (sym same) ∙ g in
            absurd (elim no_entry [ inl off ↦ ground arith | inr other ↦ ground arith ])
      ],
    ),
  )

  total : (m : Map String String) → IsThere r m → (cs : List Carrier) × IsResult m cs
  unfolding list_primaries
  total [] there = ([], (refl, λ c. ((λ p. elim p [ ]), λ l. elim l.entry [ ])))
  total ((id, version) ∷ m) there =
      let (cs, result) = total m (λ j w p. there j w (Memᴰ.tail p)) in
      let (k, a) = there id version (Memᴰ.head refl) in
      elim (Bool-cases (is_enabled r id version)) [
        | inr off ↦ (cs, passed id version k m cs (inl off) a result)
        | inl e ↦ elim (Bool-cases (has_role k.capabilities.roles role)) [
          | inl h ↦ (k ∷ cs, kept id version k m cs e a h result)
          | inr other ↦ (cs, passed id version k m cs (inr other) a result)
        ]
      ]

  -- On a sound registry `ListByRole` dereferences no nil adapter, and what it lists are exactly the
  -- adapters that stand as the primary version of their carrier, are enabled and have the role.
  pub list_by_role_sound :
      (order : Map String String → Map String String)
      → IsOrder order
      → IsSound r
      → (cs : List Carrier) × (list_by_role order role r ≡ some cs)
        × ((c : Carrier) → Memᴰ c cs ↔ IsListed r role r.primary c)
  unfolding list_by_role
  list_by_role_sound order visits s =
      let there : IsThere r (order r.primary) = λ j w p.
        s.primary_there j w
          (lookup_of_mem j w r.primary ((visits r.primary (j, w)).0 p) s.entries) in
      let (cs, (eq, iff)) = total (order r.primary) there in
      (
        cs,
        eq,
        λ c. (
          λ p.
              let l = (iff c).0 p in
              record {
                id = l.id;
                version = l.version;
                entry = (visits r.primary (l.id, l.version)).0 l.entry;
                is_on = l.is_on;
                adapter = l.adapter;
                role_matches = l.role_matches;
              },
          λ l. (iff c).1 (record {
            id = l.id;
            version = l.version;
            entry = (visits r.primary (l.id, l.version)).1 l.entry;
            is_on = l.is_on;
            adapter = l.adapter;
            role_matches = l.role_matches;
          }),
        ),
      )
