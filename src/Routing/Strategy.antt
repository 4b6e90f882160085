-- ===== src/Routing/Strategy.antt =====
-- internal/core/routing/strategy.go: the strategies that minimise one number, price or ETA. `Reasoning` holds
-- what the message prints.
use dashfetchr.Base.{
  ℕ, zero, suc, ◌+◌, ◌*◌, ◌/◌, ◌%◌, ◌^◌, Bool, ◌||◌, ◌&&◌, Option, none, some, String, List, [],
  ◌∷◌, ltb, ◌==◌, if◌then◌else◌,
}
use dashfetchr.Base.Int64.{ℤ, pos, negsuc, ltb_ℤ, int64, ◌-ℤ◌}
use dashfetchr.Base.Float64.{Float64, finite}
use dashfetchr.Core.Errors.{Error, no_available_candidate, Result, ok, err}
use dashfetchr.Ports.Carrier.{Carrier, Estimate, ShipmentRequest}

pub record Candidate : Type 0 where
  pub carrier : Carrier
  pub estimate : Estimate
  pub available : Bool
  pub error : Option Error

pub data Reasoning : Type 0 where
  cheapest_at : ℤ → String → Reasoning
  fastest_eta : ℤ → Reasoning
  weighted_score : (cost eta : ℤ) → (confidence score : Float64) → Reasoning

pub record Selection : Type 0 where
  pub carrier : Carrier
  pub score : Float64
  pub reasoning : Reasoning

pub record Strategy : Type 0 where
  pub name : String
  pub select : ShipmentRequest → List Candidate → Result Selection

-- How often a number is halved until it has at most 53 bits; an int64 needs eleven at most.
halvings : ℕ → ℕ → ℕ
halvings zero n = 0
halvings (suc fuel) n = let more = suc (halvings fuel (n / 2)) in if ltb n (2 ^ 53) then 0 else more

-- The nearest number with `53` bits, ties to even, where the last `s` bits of `n` are dropped.
rounded : ℕ → ℕ → ℕ
rounded zero n = n
rounded (suc s) n =
    let low = n % 2 ^ suc s in
    let high = n / 2 ^ suc s in
    if ltb (2 ^ s) low || (low == 2 ^ s && high % 2 == 1)
    then (high + 1) * 2 ^ suc s
    else high * 2 ^ suc s

-- float64(v) for an int64 v.
unfoldable pub float_of_int : ℤ → Float64
unfolding halvings rounded
float_of_int (pos n) = finite (pos (rounded (halvings 11 n) n * 2 ^ 1074))
float_of_int (negsuc n) = finite (pos 0 -ℤ pos (rounded (halvings 11 (suc n)) (suc n) * 2 ^ 1074))

-- -v in int64
abbrev negate : ℤ → ℤ
negate v = int64 (pos 0 -ℤ v)

-- The loop over the candidates: the first of those that are available and have the least key.
unfoldable pub best_from : (Candidate → ℤ) → Option Candidate → List Candidate → Option Candidate
best_from key best [] = best
best_from key none (c ∷ cs) = best_from key (if c.available then some c else none) cs
best_from key (some b) (c ∷ cs) =
    best_from key (if c.available && ltb_ℤ (key c) (key b) then some c else some b) cs

abbrev pub cost_of : Candidate → ℤ
cost_of c = c.estimate.cost.minor

abbrev pub eta_of : Candidate → ℤ
eta_of c = c.estimate.estimated_eta

selected : Option Candidate → (Candidate → Selection) → Result Selection
selected none f = err no_available_candidate
selected (some c) f = ok (f c)

pub cheapest_selection : Candidate → Selection
unfolding float_of_int
cheapest_selection c = record {
  carrier = c.carrier;
  score = float_of_int (negate (cost_of c));
  reasoning = cheapest_at (cost_of c) c.estimate.cost.currency;
}

pub fastest_selection : Candidate → Selection
unfolding float_of_int
fastest_selection c = record {
  carrier = c.carrier;
  score = float_of_int (negate (eta_of c));
  reasoning = fastest_eta (eta_of c);
}

unfoldable pub select_cheapest : ShipmentRequest → List Candidate → Result Selection
unfolding best_from selected cheapest_selection
select_cheapest req cs = selected (best_from cost_of none cs) cheapest_selection

unfoldable pub select_fastest : ShipmentRequest → List Candidate → Result Selection
unfolding best_from selected fastest_selection
select_fastest req cs = selected (best_from eta_of none cs) fastest_selection

abbrev pub cheapest_strategy : Strategy
cheapest_strategy = record { name = "cheapest"; select = select_cheapest }

abbrev pub fastest_strategy : Strategy
fastest_strategy = record { name = "fastest"; select = select_fastest }
