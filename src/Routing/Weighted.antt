-- ===== src/Routing/Weighted.antt =====
-- internal/core/routing/strategy.go: the strategy that weighs price, ETA and confidence. Products and sums are each
-- rounded, as on amd64, where none is fused.
pub mod Available
pub mod Best
use dashfetchr.Base.{ℕ, Bool, true, false, Option, none, some, String, List, [], ◌∷◌, if◌then◌else◌}
use dashfetchr.Base.Int64.{ℤ, pos, ltb_ℤ}
use dashfetchr.Base.Float64.{Float64, whole, lt_f, eq_f}
use dashfetchr.Base.Float64.Arith.{add_f, sub_f, mul_f, div_f, neg_f}
use dashfetchr.Core.Errors.{no_available_candidate, Result, ok, err}
use dashfetchr.Ports.Carrier.{ShipmentRequest}
use dashfetchr.Routing.Strategy.{
  Candidate, Selection, Strategy, Reasoning, weighted_score, float_of_int, cost_of, eta_of,
}

pub record WeightedScoreStrategy : Type 0 where
  pub cost_weight : Float64
  pub eta_weight : Float64
  pub confidence_weight : Float64

unfoldable pub filter_available : List Candidate → List Candidate
filter_available [] = []
filter_available (c ∷ cs) = let rest = filter_available cs in if c.available then c ∷ rest else rest

-- The loop of minMaxCost and of minMaxETA.
unfoldable pub min_max_from : (Candidate → ℤ) → (mn mx : ℤ) → List Candidate → ℤ × ℤ
min_max_from key mn mx [] = (mn, mx)
min_max_from key mn mx (c ∷ cs) =
    min_max_from key (if ltb_ℤ (key c) mn then key c else mn)
      (if ltb_ℤ mx (key c) then key c else mx) cs

-- Of a list that begins with c.
unfoldable pub min_max : (Candidate → ℤ) → Candidate → List Candidate → ℤ × ℤ
unfolding min_max_from
min_max key c cs = min_max_from key (key c) (key c) cs

unfoldable pub normalize : (v mn mx : Float64) → Float64
unfolding sub_f div_f
normalize v mn mx = if eq_f mx mn then whole 0 else div_f (sub_f v mn) (sub_f mx mn)

unfoldable pub score_of : WeightedScoreStrategy → (costs etas : ℤ × ℤ) → Candidate → Float64
unfolding normalize add_f sub_f mul_f neg_f float_of_int
score_of s costs etas c =
    let nc = normalize (float_of_int (cost_of c)) (float_of_int costs.0) (float_of_int costs.1) in
    let ne = normalize (float_of_int (eta_of c)) (float_of_int etas.0) (float_of_int etas.1) in
    add_f (sub_f (mul_f (neg_f nc) s.cost_weight) (mul_f ne s.eta_weight))
      (mul_f c.estimate.confidence_score s.confidence_weight)

-- The loop: the best so far, with its score.
unfoldable pub best_scored :
    (Candidate → Float64) → Candidate × Float64 → List Candidate → Candidate × Float64
best_scored score best [] = best
best_scored score best (c ∷ cs) =
    best_scored score (if lt_f best.1 (score c) then (c, score c) else best) cs

pub weighted_selection : Candidate × Float64 → Selection
weighted_selection (c, score) = record {
  carrier = c.carrier;
  score = score;
  reasoning = weighted_score (cost_of c) (eta_of c) c.estimate.confidence_score score;
}

module _ (s : WeightedScoreStrategy) where
  abbrev pub score_among : Candidate → List Candidate → Candidate → Float64
  score_among c cs = score_of s (min_max cost_of c cs) (min_max eta_of c cs)

  select_among : List Candidate → Result Selection
  unfolding best_scored weighted_selection
  select_among [] = err no_available_candidate
  select_among (c ∷ cs) =
      let score = score_among c cs in ok (weighted_selection (best_scored score (c, score c) cs))

  unfoldable pub select_weighted : ShipmentRequest → List Candidate → Result Selection
  unfolding select_among filter_available
  select_weighted req cs = select_among (filter_available cs)

abbrev pub weighted_strategy : WeightedScoreStrategy → Strategy
weighted_strategy s = record { name = "weighted"; select = select_weighted s }
