-- ===== src/Routing/Weighted/Best.antt =====
-- About the candidate that the weighted strategy selects (internal/core/routing/strategy.go).
use dashfetchr.Base.{
  true, false, Bool-cases, ◌⊎◌, inl, inr, ◌≡◌, refl, subst, if◌then◌else◌, sym, ap, ◌∙◌, arith,
  List, [], ◌∷◌, uncons,
}
use mathlib.Core.List.{Memᴰ}
use dashfetchr.Base.Float64.{Float64, lt_f, lt_f_trans, whole}
use dashfetchr.Core.Errors.{no_available_candidate, ok, err}
use dashfetchr.Ports.Carrier.{ShipmentRequest}
use dashfetchr.Routing.Strategy.{Candidate, Selection}
use dashfetchr.Routing.Weighted.{
  WeightedScoreStrategy, filter_available, score_among, best_scored, weighted_selection,
  select_among, select_weighted,
}
use dashfetchr.Routing.Weighted.Available.{filtered, kept_available}

module _ (score : Candidate → Float64) where
  taken :
      (b : Candidate × Float64) (c : Candidate) (cs : List Candidate)
      → lt_f b.1 (score c) ≡ true
      → best_scored score b (c ∷ cs) ≡ best_scored score (c, score c) cs
  unfolding best_scored
  taken b c cs e = ap (λ t. best_scored score (if t then (c, score c) else b) cs) e

  passed :
      (b : Candidate × Float64) (c : Candidate) (cs : List Candidate)
      → lt_f b.1 (score c) ≡ false
      → best_scored score b (c ∷ cs) ≡ best_scored score b cs
  unfolding best_scored
  passed b c cs e = ap (λ t. best_scored score (if t then (c, score c) else b) cs) e

  -- The score of the best only rises.
  best_scored_rises :
      (b : Candidate × Float64) (cs : List Candidate)
      → ((best_scored score b cs).1 ≡ b.1) ⊎ (lt_f b.1 (best_scored score b cs).1 ≡ true)
  unfolding best_scored
  best_scored_rises b [] = inl refl
  best_scored_rises b (c ∷ cs) = elim (Bool-cases (lt_f b.1 (score c))) [
    | inr e ↦
        let p = passed b c cs e in
        let rest = best_scored_rises b cs in
        subst (λ (r : Candidate × Float64). (r.1 ≡ b.1) ⊎ (lt_f b.1 r.1 ≡ true)) (sym p) rest
    | inl e ↦
        subst (λ (r : Candidate × Float64). (r.1 ≡ b.1) ⊎ (lt_f b.1 r.1 ≡ true))
          (sym (taken b c cs e))
          (elim (best_scored_rises (c, score c) cs) [
            | inl same ↦ inr (ap (λ x. lt_f b.1 x) same ∙ e)
            | inr up ↦ inr (lt_f_trans b.1 (score c) _ e up)
          ])
  ]

  -- It is not below the score of the best so far.
  best_scored-ge :
      (b : Candidate × Float64) (cs : List Candidate) (x : Float64)
      → lt_f b.1 x ≡ false
      → lt_f (best_scored score b cs).1 x ≡ false
  best_scored-ge b cs x h = elim (best_scored_rises b cs) [
    | inl same ↦ ap (λ y. lt_f y x) same ∙ h
    | inr up ↦ elim (Bool-cases (lt_f (best_scored score b cs).1 x)) [
      | inr e ↦ e
      | inl e ↦ let t = lt_f_trans b.1 _ x up e in cc
    ]
  ]

  irreflexive : (x : Float64) → lt_f x x ≡ false
  unfolding lt_f
  irreflexive x = ground arith

  -- No candidate of the list scores more than the best.
  best_scored_max :
      (b : Candidate × Float64) (cs : List Candidate) (c : Candidate)
      → Memᴰ c cs
      → lt_f (best_scored score b cs).1 (score c) ≡ false
  best_scored_max b [] c m = elim m [ ]
  best_scored_max b (k ∷ cs) c m = elim (Bool-cases (lt_f b.1 (score k))) [
    | inl e ↦
        ap (λ (r : Candidate × Float64). lt_f r.1 (score c)) (taken b k cs e) ∙ (elim (uncons m) [
          | inl at ↦
              best_scored-ge (k, score k) cs (score c)
                (ap (λ x. lt_f (score k) (score x)) at ∙ irreflexive (score k))
          | inr rest ↦ best_scored_max (k, score k) cs c rest
        ])
    | inr e ↦
        ap (λ (r : Candidate × Float64). lt_f r.1 (score c)) (passed b k cs e) ∙ (elim (uncons m) [
          | inl at ↦ best_scored-ge b cs (score c) (ap (λ x. lt_f b.1 (score x)) at ∙ e)
          | inr rest ↦ best_scored_max b cs c rest
        ])
  ]

  -- The best is the one at the start or one of the list.
  best_scored_from :
      (b : Candidate × Float64) (cs : List Candidate) → Memᴰ (best_scored score b cs).0 (b.0 ∷ cs)
  unfolding best_scored
  best_scored_from b [] = Memᴰ.head refl
  best_scored_from b (c ∷ cs) = elim (Bool-cases (lt_f b.1 (score c))) [
    | inl e ↦
        subst (λ (r : Candidate × Float64). Memᴰ r.0 (b.0 ∷ c ∷ cs)) (sym (taken b c cs e))
          (Memᴰ.tail (best_scored_from (c, score c) cs))
    | inr e ↦
        subst (λ (r : Candidate × Float64). Memᴰ r.0 (b.0 ∷ c ∷ cs)) (sym (passed b c cs e))
          (elim (uncons (best_scored_from b cs)) [
            | inl at ↦ Memᴰ.head at
            | inr rest ↦ Memᴰ.tail (Memᴰ.tail rest)
          ])
  ]

  -- The score of the best is the best's score.
  best_scored-score :
      (b : Candidate × Float64) (cs : List Candidate)
      → b.1 ≡ score b.0
      → (best_scored score b cs).1 ≡ score (best_scored score b cs).0
  unfolding best_scored
  best_scored-score b [] h = h
  best_scored-score b (c ∷ cs) h = elim (Bool-cases (lt_f b.1 (score c))) [
    | inl e ↦
        subst (λ (r : Candidate × Float64). r.1 ≡ score r.0) (sym (taken b c cs e))
          (best_scored-score (c, score c) cs refl)
    | inr e ↦
        subst (λ (r : Candidate × Float64). r.1 ≡ score r.0) (sym (passed b c cs e))
          (best_scored-score b cs h)
  ]

-- The score by which the available candidates are compared.
abbrev pub score_in : WeightedScoreStrategy → List Candidate → Candidate → Float64
score_in s [] c = whole 0
score_in s (b ∷ cs) c = score_among s b cs c

selected :
    (s : WeightedScoreStrategy) (fs : List Candidate)
    → ((select_among s fs ≡ err no_available_candidate) × (fs ≡ []))
      ⊎ ((sel : Selection) × (b : Candidate) × (select_among s fs ≡ ok sel)
          × Memᴰ b fs
          × (sel.carrier ≡ b.carrier)
          × (sel.score ≡ score_in s fs b)
          × ((c : Candidate) → Memᴰ c fs → lt_f sel.score (score_in s fs c) ≡ false))
unfolding select_among weighted_selection
selected s [] = inl (refl, refl)
selected s (c ∷ cs) =
    let score = score_among s c cs in
    let best = best_scored score (c, score c) cs in
    inr (
      weighted_selection best,
      best.0,
      refl,
      best_scored_from score (c, score c) cs,
      refl,
      best_scored-score score (c, score c) cs refl,
      λ k m. elim (uncons m) [
        | inl at ↦
            best_scored-ge score (c, score c) cs (score k)
              (ap (λ x. lt_f (score c) (score x)) at ∙ irreflexive score (score c))
        | inr rest ↦ best_scored_max score (c, score c) cs k rest
      ],
    )

-- The weighted strategy fails, with ErrNoAvailableCandidate, exactly if no candidate is available; otherwise it
-- selects an available one whose score no available candidate's exceeds, and reports that score.
pub select_weighted_lem :
    (s : WeightedScoreStrategy) (req : ShipmentRequest) (cs : List Candidate)
    → ((select_weighted s req cs ≡ err no_available_candidate)
        × ((c : Candidate) → Memᴰ c cs → c.available ≡ false))
      ⊎ ((sel : Selection) × (b : Candidate) × (select_weighted s req cs ≡ ok sel)
          × Memᴰ b cs
          × (b.available ≡ true)
          × (sel.carrier ≡ b.carrier)
          × (sel.score ≡ score_in s (filter_available cs) b)
          × ((c : Candidate)
              → Memᴰ c cs
              → c.available ≡ true
              → lt_f sel.score (score_in s (filter_available cs) c) ≡ false))
unfolding select_weighted
select_weighted_lem s req cs = elim (selected s (filter_available cs)) [
  | inl (e, none_left) ↦ inl (
    e,
    λ c m. elim (Bool-cases c.available) [
      | inr no_one ↦ no_one
      | inl h ↦ elim (subst (Memᴰ c) none_left (kept_available cs c m h)) [ ]
    ],
  )
  | inr (sel, b, e, m, carrier, own, top) ↦
      let (there, a) = filtered cs b m in
      inr (sel, b, e, there, a, carrier, own, λ c n h. top c (kept_available cs c n h))
]
