-- ===== src/Examples/Routes.antt =====
-- Runs of the routing (internal/core/routing).
use dashfetchr.Base.{true, false, Option, none, some, ◌≡◌, refl, ◌⊎◌, List, [], ◌∷◌, All}
use dashfetchr.Base.Int64.{◌-ℤ◌, int64, ◌≤ℤ◌, pos}
use dashfetchr.Core.Errors.{Result, ok, err}
use dashfetchr.Ports.Carrier.{Carrier, Estimate, ShipmentRequest, last_mile}
use dashfetchr.Routing.Strategy.{
  cheapest_at, float_of_int, Candidate, select_cheapest, cheapest_strategy,
}
use dashfetchr.Routing.Engine.{Decision, decision, decide_route, score_all, estimate_request}
use dashfetchr.Routing.Eligibility.{Fits}
use dashfetchr.Routing.Decisions.{decide_route_cheapest}
use dashfetchr.App.Dispatch.{build_shipment_request}
use dashfetchr.Examples.Fixtures.{noon, waiting, parcel, dear, cheap, silent}
use mathlib.Core.List.{Memᴰ}

abbrev request : ShipmentRequest
request = build_shipment_request parcel waiting

abbrev fleet : List Carrier
fleet = silent ∷ dear ∷ cheap ∷ []

abbrev choice : Result Decision → Carrier
choice (ok d) = d.chosen
choice (err x) = silent

abbrev chosen : Decision
chosen = decision cheapest_strategy noon (score_all request fleet) (record {
  carrier = cheap;
  score = float_of_int (int64 (pos 0 -ℤ pos 500));
  reasoning = cheapest_at (pos 500) "RON";
})

decide_route_cheapest_example :
    (est : Estimate) × Memᴰ cheap fleet
    × Fits request last_mile cheap.capabilities
    × (cheap.get_estimate (estimate_request request) ≡ ok est)
    × ((c : Carrier) (other : Estimate)
        → Memᴰ c fleet
        → Fits request last_mile c.capabilities
        → c.get_estimate (estimate_request request) ≡ ok other
        → est.cost.minor ≤ℤ other.cost.minor)
unfolding decide_route dashfetchr.Routing.Engine.eligible dashfetchr.Routing.Engine.is_skipped
    dashfetchr.Routing.Engine.has_role dashfetchr.Base.Float64.lt_f dashfetchr.Base.Float64.whole
    build_shipment_request dashfetchr.Routing.Dimensions.exceeds_dims
    dashfetchr.Routing.Engine.supports_pickup select_cheapest score_all
decide_route_cheapest_example =
    decide_route_cheapest request last_mile noon fleet {dec = chosen} refl

abbrev scored : List Candidate
scored = score_all request fleet
