-- ===== src/Routing/Cheapest.antt =====
-- What the strategies that minimise one number choose (internal/core/routing/strategy.go).
use dashfetchr.Base.{
  subst, true, false, ◌&&◌, none, some, ◌≡◌, refl, ap, ◌∙◌, sym, List, [], ◌∷◌, ◌++◌, arith, All,
  Bool-cases, inl, inr, ◌⊎◌,
}
use dashfetchr.Base.Int64.{ℤ, ltb_ℤ, ◌≤ℤ◌, ◌<ℤ◌}
use dashfetchr.Core.Errors.{no_available_candidate, ok, err}
use dashfetchr.Ports.Carrier.{ShipmentRequest}
use dashfetchr.Routing.Strategy.{
  cheapest_selection, fastest_selection, Candidate, Selection, best_from, cost_of, eta_of,
  select_cheapest, select_fastest,
}

-- No estimate came back for the candidate.
abbrev pub IsUnavailable : Candidate → Type 0
IsUnavailable c = c.available ≡ false

module _ (key : Candidate → ℤ) where
  -- An available candidate has no smaller key than `k`, or a larger one.
  abbrev pub AtLeast : ℤ → Candidate → Type 0
  AtLeast k c = c.available ≡ true → k ≤ℤ key c

  abbrev pub Above : ℤ → Candidate → Type 0
  Above k c = c.available ≡ true → k <ℤ key c

  -- `b` is the first of the available candidates with the least key.
  pub record IsFirstLeast (cs : List Candidate) (b : Candidate) : Type 0 where
    pub before : List Candidate
    pub after : List Candidate
    pub split : cs ≡ before ++ b ∷ after
    pub available : b.available ≡ true
    pub larger : All (Above (key b)) before
    pub not_smaller : All (AtLeast (key b)) after

  -- The loop that starts with `b` keeps it, or moves to a candidate with a smaller key.
  LoopEnd : Candidate → List Candidate → Candidate → Type 0
  LoopEnd b cs r = ((r ≡ b) × All (AtLeast (key b)) cs) ⊎ (IsFirstLeast cs r × (key r <ℤ key b))

  advance :
      (b c : Candidate) (cs : List Candidate) (r : Candidate)
      → (c.available && ltb_ℤ (key c) (key b)) ≡ true
      → LoopEnd c cs r
      → LoopEnd b (c ∷ cs) r
  unfolding LoopEnd
  advance b c cs r t (inl (same, rest)) = inr (
    record {
      before = [];
      after = cs;
      split = ap (λ x. x ∷ cs) (sym same);
      available = ap (λ (x : Candidate). x.available) same ∙ (ground arith);
      larger = tt;
      not_smaller = subst (λ x. All (AtLeast (key x)) cs) (sym same) rest;
    },
    subst (λ x. key x <ℤ key b) (sym same) (ground arith),
  )
  advance b c cs r t (inr (f, less)) = inr (
    record {
      before = c ∷ f.before;
      after = f.after;
      split = ap (λ xs. c ∷ xs) f.split;
      available = f.available;
      larger = ((λ _. less), f.larger);
      not_smaller = f.not_smaller;
    },
    ground arith,
  )

  stay :
      (b c : Candidate) (cs : List Candidate) (r : Candidate)
      → (c.available && ltb_ℤ (key c) (key b)) ≡ false
      → LoopEnd b cs r
      → LoopEnd b (c ∷ cs) r
  unfolding LoopEnd
  stay b c cs r t (inl (same, rest)) = inl (same, ((λ a. ground arith), rest))
  stay b c cs r t (inr (f, less)) = inr (
    record {
      before = c ∷ f.before;
      after = f.after;
      split = ap (λ xs. c ∷ xs) f.split;
      available = f.available;
      larger = ((λ a. ground arith), f.larger);
      not_smaller = f.not_smaller;
    },
    less,
  )

  loop :
      (b : Candidate) (cs : List Candidate)
      → (r : Candidate) × (best_from key (some b) cs ≡ some r) × LoopEnd b cs r
  unfolding best_from
  loop b [] = (b, refl, unfold LoopEnd in inl (refl, tt))
  loop b (c ∷ cs) = elim (Bool-cases (c.available && ltb_ℤ (key c) (key b))) [
    | inl t ↦ let (r, e, p) = loop c cs in (r, rw t e, advance b c cs r t p)
    | inr t ↦ let (r, e, p) = loop b cs in (r, rw t e, stay b c cs r t p)
  ]

  start :
      (c : Candidate) (cs : List Candidate) (r : Candidate)
      → c.available ≡ true
      → LoopEnd c cs r
      → IsFirstLeast (c ∷ cs) r
  unfolding LoopEnd
  start c cs r t (inl (same, rest)) = record {
    before = [];
    after = cs;
    split = ap (λ x. x ∷ cs) (sym same);
    available = ap (λ (x : Candidate). x.available) same ∙ t;
    larger = tt;
    not_smaller = subst (λ x. All (AtLeast (key x)) cs) (sym same) rest;
  }
  start c cs r t (inr (f, less)) = record {
    before = c ∷ f.before;
    after = f.after;
    split = ap (λ xs. c ∷ xs) f.split;
    available = f.available;
    larger = ((λ _. less), f.larger);
    not_smaller = f.not_smaller;
  }

  skip :
      (c : Candidate) (cs : List Candidate) (r : Candidate)
      → c.available ≡ false
      → IsFirstLeast cs r
      → IsFirstLeast (c ∷ cs) r
  skip c cs r u f = record {
    before = c ∷ f.before;
    after = f.after;
    split = ap (λ xs. c ∷ xs) f.split;
    available = f.available;
    larger = ((λ a. absurd (ground arith)), f.larger);
    not_smaller = f.not_smaller;
  }

  first :
      (cs : List Candidate)
      → (All IsUnavailable cs × (best_from key none cs ≡ none))
        ⊎ ((r : Candidate) × (best_from key none cs ≡ some r) × IsFirstLeast cs r)
  unfolding best_from
  first [] = inl (tt, refl)
  first (c ∷ cs) = elim (Bool-cases c.available) [
    | inl t ↦ let (r, e, p) = loop c cs in inr (r, simp t e, start c cs r t p)
    | inr u ↦ elim (first cs) [
      | inl (rest, e) ↦ inl ((u, rest), simp u e)
      | inr (r, e, f) ↦ inr (r, simp u e, skip c cs r u f)
    ]
  ]

-- The cheapest strategy fails, with `ErrNoAvailableCandidate`, exactly if no candidate is available;
-- otherwise it selects the first of the available candidates with the least price.
pub select_cheapest_lem :
    (req : ShipmentRequest) (cs : List Candidate)
    → (All IsUnavailable cs × (select_cheapest req cs ≡ err no_available_candidate))
      ⊎ ((b : Candidate) × (sel : Selection) × (select_cheapest req cs ≡ ok sel)
          × IsFirstLeast cost_of cs b
          × (sel.carrier ≡ b.carrier))
unfolding select_cheapest
select_cheapest_lem req cs = elim (first cost_of cs) [
  | inl (all, e) ↦ inl (all, rw e)
  | inr (b, e, f) ↦ inr (b, cheapest_selection b, rw e, f, refl)
]

-- The fastest strategy fails, with `ErrNoAvailableCandidate`, exactly if no candidate is available;
-- otherwise it selects the first of the available candidates with the least ETA.
pub select_fastest_lem :
    (req : ShipmentRequest) (cs : List Candidate)
    → (All IsUnavailable cs × (select_fastest req cs ≡ err no_available_candidate))
      ⊎ ((b : Candidate) × (sel : Selection) × (select_fastest req cs ≡ ok sel)
          × IsFirstLeast eta_of cs b
          × (sel.carrier ≡ b.carrier))
unfolding select_fastest
select_fastest_lem req cs = elim (first eta_of cs) [
  | inl (all, e) ↦ inl (all, rw e)
  | inr (b, e, f) ↦ inr (b, fastest_selection b, rw e, f, refl)
]
