-- ===== src/Base/Entries.antt =====
-- The entries of a map: no key has two, so that a visit of the entries sees what `lookup` reads.
use mathlib.Core.Path.{◌≡◌, refl, ap, sym, ◌∙◌}
use mathlib.Core.Logic.{inl, inr}
use mathlib.Core.Option.{none, some}
use mathlib.Core.List.{[], ◌∷◌, Memᴰ}
use native.Mathlib.Omega.{arith}
use dashfetchr.Base.Tests.{Bool-cases}
use dashfetchr.Base.Lists.{uncons}
use dashfetchr.Base.Maps.{Eq, Map, lookup, insert, lookup-insert}

module _ {ℓ κ} {K : Type ℓ} {V : Type κ} ⦃e : Eq K⦄ where
  -- No two entries have one key.
  abbrev pub IsMap : Map K V → Type κ
  IsMap [] = Unit
  IsMap ((k, v) ∷ m) = (lookup k m ≡ none) × IsMap m

  pub insert-IsMap : (k : K) (v : V) (m : Map K V) → IsMap m → IsMap (insert k v m)
  unfolding insert
  insert-IsMap k v [] h = (unfold lookup in refl, tt)
  insert-IsMap k v ((j, w) ∷ m) h = elim (Bool-cases (e.beq j k)) [
    | inl t ↦ rw t (ap (λ i. lookup i m) (sym ((e.beq_iff j k).0 t)) ∙ h.0, h.1)
    | inr f ↦ rw f (
      lookup-insert k j v m ∙ ground (arith, e.beq_iff j k, e.beq_iff k j, h.0),
      insert-IsMap k v m h.1,
    )
  ]

  pub lookup_of_mem : (k : K) (v : V) (m : Map K V) → Memᴰ (k, v) m → IsMap m → lookup k m ≡ some v
  unfolding lookup
  lookup_of_mem k v [] a h = elim a [ ]
  lookup_of_mem k v ((j, w) ∷ m) a h = elim (uncons a) [
    | inl same ↦
        let at : j ≡ k = ap (λ (p : K × V). p.0) (sym same) in
        let holds : w ≡ v = ap (λ (p : K × V). p.1) (sym same) in
        rw ((e.beq_iff j k).1 at) (rw holds)
    | inr rest ↦
        let l = lookup_of_mem k v m rest h.1 in
        elim (Bool-cases (e.beq j k)) [
          | inl t ↦ absurd (cc (l, h.0, (e.beq_iff j k).0 t))
          | inr f ↦ rw f l
        ]
  ]

  pub mem_of_lookup : (k : K) (v : V) (m : Map K V) → lookup k m ≡ some v → Memᴰ (k, v) m
  unfolding lookup
  mem_of_lookup k v [] h = cc
  mem_of_lookup k v ((j, w) ∷ m) h = elim (Bool-cases (e.beq j k)) [
    | inl t ↦
        let at : k ≡ j = sym ((e.beq_iff j k).0 t) in
        let holds : v ≡ w = ground arith in Memᴰ.head (λ i. (at i, holds i))
    | inr f ↦ Memᴰ.tail (mem_of_lookup k v m (ground arith))
  ]
