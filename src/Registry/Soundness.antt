-- ===== src/Registry/Soundness.antt =====
-- What the operations of the registry (internal/carrier/registry.go) keep.
use dashfetchr.Base.{
  Bool, not, ◌&&◌, Option, none, some, ◌≡◌, sym, ap, ◌∙◌, String, arith, if◌then◌else◌, str_eq,
  eq_iff, Bool-cases, Option-cases, inl, inr,
}
use dashfetchr.Base.Maps.{lookup, insert, string_eq, pair_eq, lookup-insert}
use dashfetchr.Base.Entries.{IsMap, insert-IsMap}
use dashfetchr.Ports.Carrier.{Carrier}
use dashfetchr.Registry.{
  is_some, Registry, new_registry, adapter_at, or_empty, register, set_primary, set_enabled, add,
}

-- Adapters stand under their own identifiers, and a primary version is there.
pub record IsSound (r : Registry) : Type 0 where
  pub entries : IsMap r.primary
  pub own_id :
      (id version : String) (c : Carrier)
      → adapter_at r id version ≡ some c
      → c.capabilities.id ≡ id
  pub primary_there :
      (id version : String)
      → lookup id r.primary ≡ some version
      → (c : Carrier) × (adapter_at r id version ≡ some c)

-- After an adapter is added it stands at its place, and the other places are as they were.
pub adapter_at-add :
    (id version : String) (c : Carrier) (r : Registry) (j w : String)
    → adapter_at (add id version c r) j w
      ≡ (if str_eq id j && str_eq version w then some c else adapter_at r j w)
unfolding adapter_at add
adapter_at-add id version c r j w =
    rw (lookup-insert id j (insert version c (or_empty (lookup id r.by_id))) r.by_id)
      (ground (arith, eq_iff id j, lookup-insert version w c (or_empty (lookup id r.by_id))))

primary-add :
    (id version : String) (c : Carrier) (r : Registry) (j : String)
    → lookup j (add id version c r).primary ≡ (
        if str_eq id j && not (is_some (lookup id r.primary))
        then some version
        else lookup j r.primary)
unfolding add
primary-add id version c r j = elim (Bool-cases (is_some (lookup id r.primary))) [
  | inl t ↦ rw t (ground arith)
  | inr f ↦ rw f (rw (lookup-insert id j version r.primary) (ground arith))
]

pub new-IsSound : IsSound new_registry
unfolding adapter_at lookup
new-IsSound = record {
  entries = tt;
  own_id = λ id version c h. absurd (ground arith);
  primary_there = λ id version h. absurd (ground arith);
}

module _ (version : String) (c : Carrier) (r : Registry) (s : IsSound r) where
  added_own :
      (j w : String) (k : Carrier)
      → adapter_at (add c.capabilities.id version c r) j w ≡ some k
      → k.capabilities.id ≡ j
  added_own j w k h = elim (Bool-cases (str_eq c.capabilities.id j && str_eq version w)) [
    | inl t ↦
        let same : c ≡ k = ground (arith, adapter_at-add c.capabilities.id version c r j w) in
        ap (λ (x : Carrier). x.capabilities.id) (sym same)
        ∙ (eq_iff c.capabilities.id j).0 (ground arith)
    | inr f ↦ s.own_id j w k (ground (arith, adapter_at-add c.capabilities.id version c r j w))
  ]

  still_there :
      (j w : String) {k : Carrier}
      → adapter_at r j w ≡ some k
      → (d : Carrier) × (adapter_at (add c.capabilities.id version c r) j w ≡ some d)
  still_there j w {k} h =
      let id = c.capabilities.id in
      elim (Bool-cases (str_eq id j && str_eq version w)) [
        | inl t ↦ (c, adapter_at-add id version c r j w ∙ (rw t))
        | inr f ↦ (k, adapter_at-add id version c r j w ∙ (rw f h))
      ]

  added_primary :
      (j w : String)
      → lookup j (add c.capabilities.id version c r).primary ≡ some w
      → (d : Carrier) × (adapter_at (add c.capabilities.id version c r) j w ≡ some d)
  added_primary j w h =
      let id = c.capabilities.id in
      elim (Bool-cases (str_eq id j && not (is_some (lookup id r.primary)))) [
        | inr f ↦
            let (k, l) = s.primary_there j w (sym (primary-add id version c r j ∙ (rw f)) ∙ h) in
            still_there j w l
        | inl t ↦
            let same : version ≡ w = ground (arith, primary-add id version c r j) in
            (c, adapter_at-add id version c r j w ∙ (ground (arith, eq_iff version w)))
      ]

  added_entries : IsMap (add c.capabilities.id version c r).primary
  unfolding add
  added_entries = elim (Bool-cases (is_some (lookup c.capabilities.id r.primary))) [
    | inl t ↦ rw t s.entries
    | inr f ↦ rw f (insert-IsMap c.capabilities.id version r.primary s.entries)
  ]

  add-IsSound : IsSound (add c.capabilities.id version c r)
  add-IsSound = record {
    entries = added_entries;
    own_id = added_own;
    primary_there = added_primary;
  }

-- `Register`, whether it succeeds or not, keeps the registry sound.
pub register-IsSound :
    (version : String) (a : Option Carrier) (r : Registry)
    → IsSound r
    → IsSound (register version a r).0
unfolding register
register-IsSound version none r s = s
register-IsSound version (some c) r s = elim (Bool-cases (str_eq c.capabilities.id "")) [
  | inl t ↦ rw t s
  | inr f ↦ rw f (elim (Bool-cases (is_some (adapter_at r c.capabilities.id version))) [
    | inl t ↦ rw t s
    | inr g ↦ rw g (add-IsSound version c r s)
  ])
]

insert-IsSound :
    (id version : String) (r : Registry)
    → IsSound r
    → (k : Carrier) → adapter_at r id version ≡ some k
    → IsSound (record r { primary = insert id version r.primary })
unfolding adapter_at
insert-IsSound id version r s k l = record {
  entries = insert-IsMap id version r.primary s.entries;
  own_id = s.own_id;
  primary_there = λ j w h. elim (Bool-cases (str_eq id j)) [
    | inl t ↦
        (k, ground (arith, l, lookup-insert id j version r.primary, eq_iff id j, eq_iff version w))
    | inr f ↦ s.primary_there j w (ground (arith, lookup-insert id j version r.primary))
  ];
}

-- `SetPrimary`, whether it succeeds or not, keeps the registry sound.
pub set_primary-IsSound :
    (id version : String) (r : Registry) → IsSound r → IsSound (set_primary id version r).0
unfolding set_primary
set_primary-IsSound id version r s = elim (Option-cases (adapter_at r id version)) [
  | inl n ↦ simp n s
  | inr (k, l) ↦ simp l (insert-IsSound id version r s k l)
]

pub set_enabled-IsSound :
    (id version : String) (b : Bool) (r : Registry)
    → IsSound r
    → IsSound (set_enabled id version b r)
unfolding set_enabled adapter_at
set_enabled-IsSound id version b r s = record {
  entries = s.entries;
  own_id = s.own_id;
  primary_there = s.primary_there;
}
