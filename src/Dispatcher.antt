-- ===== src/Dispatcher.antt =====
-- cmd/dispatcher/main.go: the worker that dispatches pending deliveries at every tick. The loop is over the ticks
-- that come before the context is done; each tick has the readings of its clock.
use dashfetchr.Base.{
  ℕ, suc, All, Option, some, String, Bytes, List, [], ◌∷◌, ◌≡◌, refl, ap, ◌∙◌, arith, if◌then◌else◌,
}
use dashfetchr.Base.Int64.{ℤ, pos, ltb_ℤ}
use dashfetchr.Base.Float64.{Float64}
use dashfetchr.Base.Time.{Time}
use dashfetchr.Base.Uuid.{Uuid}
use dashfetchr.Base.Maps.{Map}
use dashfetchr.Core.Errors.{Error, Result}
use dashfetchr.Core.Delivery.States.{pending}
use dashfetchr.Core.Delivery.{Delivery}
use dashfetchr.Infra.Memory.DeliveryRepo.{list_by_state}
use dashfetchr.Ports.Carrier.{Carrier}
use dashfetchr.Routing.Strategy.{Strategy, cheapest_strategy}
use dashfetchr.Adapters.Bolt.Types.{BoltWebhookPayload}
use dashfetchr.Adapters.Bolt.Client.{Config, Net}
use dashfetchr.App.Store.{Store}
use dashfetchr.App.Dispatch.{dispatch_pending, dispatch_each, count_of}
use dashfetchr.App.Boundary.{bolt, dispatch_delivery_bolt}

module _ (strategy : Strategy) (registered : List Carrier)
    (order : Map Uuid Delivery → Map Uuid Delivery) (batch : ℤ) where
  -- runLoop
  unfoldable pub run_loop : List (ℕ → Time × Time) → Store → Store
  run_loop [] s = s
  run_loop (tick ∷ ticks) s =
      run_loop ticks (dispatch_pending strategy registered order tick batch s).0

pair_of :
    {p : Store × Option Error} {s : Store} {x : Error} → p.0 ≡ s → p.1 ≡ some x → p ≡ (s, some x)
pair_of a b = ground arith

module _ (headers : Map String String → Map String String) (hmac_hex : String → Bytes → String)
    (unmarshal : Bytes → Result BoltWebhookPayload) (cfg : Config) (net : Net) (wild : Float64 → ℤ)
    (cs : List Carrier) (all : All (λ k. k ≡ bolt headers hmac_hex unmarshal cfg net wild) cs) where
  each_bolt :
      (clock : ℕ → Time × Time) (dels : List Delivery) (n : ℕ) (s : Store)
      → dispatch_each cheapest_strategy cs clock dels n s ≡ (s, n)
  unfolding dispatch_each count_of
  each_bolt clock [] n s = refl
  each_bolt clock (del ∷ dels) n s =
      let (kept, (x, failed)) =
        dispatch_delivery_bolt headers hmac_hex unmarshal cfg net wild cs all (clock 0).0
          (clock 0).1 del.id s in
      ap
        (λ (p : Store × Option Error).
          dispatch_each cheapest_strategy cs (λ i. clock (suc i)) dels
            (count_of cheapest_strategy cs p.1 n) p.0)
        (pair_of kept failed)
      ∙ each_bolt (λ i. clock (suc i)) dels n s

  -- Where Bolt's adapter is the only carrier, the worker changes no store, however many ticks it runs.
  pub run_loop_bolt :
      (order : Map Uuid Delivery → Map Uuid Delivery) (batch : ℤ) (ticks : List (ℕ → Time × Time))
      (s : Store)
      → run_loop cheapest_strategy cs order batch ticks s ≡ s
  unfolding run_loop dispatch_pending
  run_loop_bolt order batch [] s = refl
  run_loop_bolt order batch (tick ∷ ticks) s =
      let n = if ltb_ℤ (pos 0) batch then batch else pos 20 in
      let still =
        ap (λ (p : Store × ℕ). p.0)
          (each_bolt tick (list_by_state order pending n s.deliveries) 0 s) in
      ap (λ t. run_loop cheapest_strategy cs order batch ticks t) still
      ∙ run_loop_bolt order batch ticks s
