-- ===== src/Routing/Engine.antt =====
-- internal/core/routing/engine.go: the carriers that may take a shipment, and the decision among them.
-- `registered` is what `registry.ListByRole(role)` returns, and `now` what the clock reads.
use dashfetchr.Base.{
  Bool, true, false, not, ◌||◌, ◌&&◌, none, some, String, List, [], ◌∷◌, if◌then◌else◌,
}
use dashfetchr.Base.Int64.{pos}
use dashfetchr.Base.Float64.{Float64, lt_f, whole}
use dashfetchr.Base.Time.{Time, utc}
use dashfetchr.Core.Errors.{no_eligible_carrier, Result, ok, err, ◌>>=◌}
use dashfetchr.Ports.Carrier.{
  Carrier, Capabilities, CarrierRole, PickupMode, locker, same_role, same_mode, Estimate,
  EstimateRequest, ShipmentRequest,
}
use dashfetchr.Routing.Dimensions.{exceeds_dims}
use dashfetchr.Routing.Strategy.{Candidate, Selection, Strategy, Reasoning}

unfoldable pub has_role : List CarrierRole → CarrierRole → Bool
has_role [] want = false
has_role (r ∷ rs) want = same_role r want || has_role rs want

has_mode : List PickupMode → PickupMode → Bool
has_mode [] t = false
has_mode (m ∷ ms) t = same_mode m t || has_mode ms t

unfoldable pub supports_pickup : Capabilities → PickupMode → Bool
unfolding has_mode
supports_pickup caps t = has_mode caps.pickup_modes t

-- The guards of the loop, in their order; the zone check is not in the code either.
unfoldable pub is_skipped : ShipmentRequest → CarrierRole → Capabilities → Bool
is_skipped req role caps =
    if not (has_role caps.roles role)
    then true
    else if lt_f caps.max_weight_kg req.pkg.weight_kg
    then true
    else if exceeds_dims req.pkg caps.max_dimensions_cm
    then true
    else if not (supports_pickup caps req.pickup.type)
    then true
    else if same_mode req.pickup.type locker && not caps.supports_locker
    then true
    else false

unfoldable pub eligible : ShipmentRequest → CarrierRole → List Carrier → List Carrier
eligible req role [] = []
eligible req role (c ∷ cs) =
    let rest = eligible req role cs in if is_skipped req role c.capabilities then rest else c ∷ rest

abbrev pub estimate_request : ShipmentRequest → EstimateRequest
estimate_request req = record {
  pickup = req.pickup;
  drop = req.drop;
  pkg = req.pkg;
  when = req.scheduled_start;
}

-- The zero value of `Estimate`.
abbrev pub no_estimate : Estimate
no_estimate = record {
  cost = record { currency = ""; minor = pos 0 };
  estimated_eta = pos 0;
  window_start_at = none;
  window_end_at = none;
  confidence_score = whole 0;
}

abbrev pub candidate_of : Carrier → Result Estimate → Candidate
candidate_of c (ok est) = record { carrier = c; estimate = est; available = true; error = none }
candidate_of c (err e) = record {
  carrier = c;
  estimate = no_estimate;
  available = false;
  error = some e;
}

unfoldable pub score_all : ShipmentRequest → List Carrier → List Candidate
score_all req [] = []
score_all req (c ∷ cs) = candidate_of c (c.get_estimate (estimate_request req)) ∷ score_all req cs

pub record Decision : Type 0 where
  pub strategy : String
  pub chosen : Carrier
  pub score : Float64
  pub reasoning : Reasoning
  pub candidates : List Candidate
  pub decided_at : Time

-- The struct that `Decide` returns.
abbrev pub decision : Strategy → Time → List Candidate → Selection → Decision
decision strategy now scored sel = record {
  strategy = strategy.name;
  chosen = sel.carrier;
  score = sel.score;
  reasoning = sel.reasoning;
  candidates = scored;
  decided_at = utc now;
}

unfoldable pub decide_among : Strategy → Time → ShipmentRequest → List Carrier → Result Decision
decide_among strategy now req [] = err no_eligible_carrier
decide_among strategy now req (c ∷ cs) = do
  let scored = score_all req (c ∷ cs)
  sel ← strategy.select req scored
  ok (decision strategy now scored sel)

unfoldable pub decide_route :
    Strategy → Time → ShipmentRequest → CarrierRole → List Carrier → Result Decision
unfolding decide_among
decide_route strategy now req role registered =
    decide_among strategy now req (eligible req role registered)
