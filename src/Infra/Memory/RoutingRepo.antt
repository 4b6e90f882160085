-- ===== src/Infra/Memory/RoutingRepo.antt =====
-- internal/infra/memory/routing_repo.go: the log of routing decisions, by delivery.
use dashfetchr.Base.{◌==◌, String, List, [], ◌∷◌, ◌++◌, if◌then◌else◌, ◌≡◌, arith}
use dashfetchr.Base.Float64.{Float64}
use dashfetchr.Base.Uuid.{Uuid}
use dashfetchr.Base.Maps.{Map, nat_eq, lookup, insert, or_nil, lookup-insert}

pub record RoutingDecisionRecord : Type 0 where
  pub strategy : String
  pub chosen_id : String
  pub score : Float64
  pub reasoning : String
  pub candidates : String

pub record RoutingRepo : Type 0 where
  pub logs : Map Uuid (List RoutingDecisionRecord)

abbrev pub new : RoutingRepo
new = record { logs = [] }

unfoldable pub save : Uuid → RoutingDecisionRecord → RoutingRepo → RoutingRepo
unfolding lookup insert
save id entry r = record { logs = insert id (or_nil (lookup id r.logs) ++ entry ∷ []) r.logs }

-- A decision that is saved stands at the end of its delivery's decisions, and the other deliveries keep theirs.
pub lookup-save :
    (id k : Uuid) (entry : RoutingDecisionRecord) (r : RoutingRepo)
    → or_nil (lookup k (save id entry r).logs)
      ≡ (if id == k then or_nil (lookup id r.logs) ++ entry ∷ [] else or_nil (lookup k r.logs))
unfolding save
lookup-save id k entry r =
    let e = lookup-insert id k (or_nil (lookup id r.logs) ++ entry ∷ []) r.logs in ground arith
