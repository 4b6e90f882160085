-- ===== src/Routing/Weighted/Available.antt =====
-- About the available candidates (filterAvailable in internal/core/routing/strategy.go).
use dashfetchr.Base.{
  true, false, Bool-cases, inl, inr, ◌≡◌, subst, if◌then◌else◌, sym, ap, ◌∙◌, List, [], ◌∷◌, uncons,
}
use mathlib.Core.List.{Memᴰ}
use dashfetchr.Routing.Strategy.{Candidate}
use dashfetchr.Routing.Weighted.{filter_available}

filter_available_taken :
    (k : Candidate) (cs : List Candidate)
    → k.available ≡ true
    → filter_available (k ∷ cs) ≡ k ∷ filter_available cs
unfolding filter_available
filter_available_taken k cs e =
    ap (λ t. if t then k ∷ filter_available cs else filter_available cs) e

filter_available_passed :
    (k : Candidate) (cs : List Candidate)
    → k.available ≡ false
    → filter_available (k ∷ cs) ≡ filter_available cs
unfolding filter_available
filter_available_passed k cs e =
    ap (λ t. if t then k ∷ filter_available cs else filter_available cs) e

pub filtered :
    (cs : List Candidate) (c : Candidate)
    → Memᴰ c (filter_available cs)
    → Memᴰ c cs × (c.available ≡ true)
unfolding filter_available
filtered [] c m = elim m [ ]
filtered (k ∷ cs) c m = elim (Bool-cases k.available) [
  | inl e ↦ elim (uncons (subst (Memᴰ c) (filter_available_taken k cs e) m)) [
    | inl at ↦ (Memᴰ.head at, ap (λ (x : Candidate). x.available) at ∙ e)
    | inr rest ↦ let (n, a) = filtered cs c rest in (Memᴰ.tail n, a)
  ]
  | inr e ↦
      let (n, a) = filtered cs c (subst (Memᴰ c) (filter_available_passed k cs e) m) in
      (Memᴰ.tail n, a)
]

pub kept_available :
    (cs : List Candidate) (c : Candidate)
    → Memᴰ c cs
    → c.available ≡ true
    → Memᴰ c (filter_available cs)
unfolding filter_available
kept_available [] c m h = elim m [ ]
kept_available (k ∷ cs) c m h = elim (Bool-cases k.available) [
  | inl e ↦ subst (Memᴰ c) (sym (filter_available_taken k cs e)) (elim (uncons m) [
    | inl at ↦ Memᴰ.head at
    | inr rest ↦ Memᴰ.tail (kept_available cs c rest h)
  ])
  | inr e ↦ elim (uncons m) [
    | inl at ↦ let t = ap (λ (x : Candidate). x.available) at in absurd cc
    | inr rest ↦ subst (Memᴰ c) (sym (filter_available_passed k cs e)) (kept_available cs c rest h)
  ]
]
