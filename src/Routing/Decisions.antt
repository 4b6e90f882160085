-- ===== src/Routing/Decisions.antt =====
-- What `Decide` with the cheapest strategy promises (internal/core/routing/engine.go).
use dashfetchr.Base.{
  uncons, true, ◌≡◌, refl, ap, sym, ◌∙◌, subst, List, [], ◌∷◌, ◌++◌, arith, inl, inr, ◌⊎◌, All,
  All-append,
}
use dashfetchr.Base.Int64.{ℤ, ◌≤ℤ◌}
use dashfetchr.Base.Time.{Time}
use dashfetchr.Core.Errors.{
  ok-injective, err-injective, Error, no_eligible_carrier, no_available_candidate, ok, err,
  Result-cases,
}
use dashfetchr.Ports.Carrier.{Carrier, CarrierRole, Estimate, ShipmentRequest}
use dashfetchr.Routing.Strategy.{Candidate, cheapest_strategy, cost_of}
use dashfetchr.Routing.Cheapest.{IsFirstLeast, AtLeast, Above, IsUnavailable, select_cheapest_lem}
use dashfetchr.Routing.Engine.{
  decision, decide_among, eligible, estimate_request, candidate_of, score_all, Decision,
  decide_route,
}
use dashfetchr.Routing.Eligibility.{Fits, mem-eligible}
use mathlib.Core.List.{Memᴰ}

mem_middle : (xs : List Candidate) (b : Candidate) (ys : List Candidate) → Memᴰ b (xs ++ b ∷ ys)
mem_middle [] b ys = Memᴰ.head refl
mem_middle (x ∷ xs) b ys = Memᴰ.tail (mem_middle xs b ys)

weaken : (k : ℤ) (xs : List Candidate) → All (Above cost_of k) xs → All (AtLeast cost_of k) xs
weaken k [] h = tt
weaken k (x ∷ xs) (a, h) = ((λ t. let l = a t in omega arith), weaken k xs h)

-- The price of the first cheapest candidate is at most that of every available one.
whole_list :
    (cs : List Candidate) (b : Candidate)
    → IsFirstLeast cost_of cs b
    → All (AtLeast cost_of (cost_of b)) cs
whole_list cs b f = subst (All (AtLeast cost_of (cost_of b))) (sym f.split) (
    All-append (AtLeast cost_of (cost_of b)) f.before (b ∷ f.after)
      (weaken (cost_of b) f.before f.larger) ((λ t. omega arith), f.not_smaller))

not-nil : {c : Carrier} → Memᴰ c [] → ⊥
not-nil m = elim m [ ]

module _ (req : ShipmentRequest) where
  scored_unavailable :
      (c : Carrier) {cs : List Carrier}
      → Memᴰ c cs
      → All IsUnavailable (score_all req cs)
      → (e : Error) × (c.get_estimate (estimate_request req) ≡ err e)
  unfolding score_all
  scored_unavailable c (Memᴰ.head {x = d} {xs = cs} same) h =
      elim (Result-cases (c.get_estimate (estimate_request req))) [
        | inr (e, p) ↦ (e, p)
        | inl (est, p) ↦
            let q = ap (λ (x : Carrier). x.get_estimate (estimate_request req)) (sym same) ∙ p in
            let u = subst (λ r. IsUnavailable (candidate_of d r)) q h.0 in absurd (ground arith)
      ]
  scored_unavailable c (Memᴰ.tail m) h = scored_unavailable c m h.1

  scored_least :
      (c : Carrier) (k : ℤ) (est : Estimate) {cs : List Carrier}
      → Memᴰ c cs
      → All (AtLeast cost_of k) (score_all req cs)
      → c.get_estimate (estimate_request req) ≡ ok est
      → k ≤ℤ est.cost.minor
  unfolding score_all
  scored_least c k est (Memᴰ.head {x = d} same) h p =
      let q = ap (λ (x : Carrier). x.get_estimate (estimate_request req)) (sym same) ∙ p in
      subst (λ r. AtLeast cost_of k (candidate_of d r)) q h.0 refl
  scored_least c k est (Memᴰ.tail m) h p = scored_least c k est m h.1 p

  origin :
      (cs : List Carrier) (b : Candidate)
      → Memᴰ b (score_all req cs)
      → (c : Carrier) × Memᴰ c cs × (b ≡ candidate_of c (c.get_estimate (estimate_request req)))
  unfolding score_all
  origin [] b m = absurd (elim m [ ])
  origin (c ∷ cs) b m = elim (uncons m) [
    | inl same ↦ (c, Memᴰ.head refl, same)
    | inr rest ↦ let (d, at, same) = origin cs b rest in (d, Memᴰ.tail at, same)
  ]

  answered :
      (c : Carrier) (b : Candidate)
      → b ≡ candidate_of c (c.get_estimate (estimate_request req))
      → b.available ≡ true
      → (est : Estimate) × (c.get_estimate (estimate_request req) ≡ ok est)
        × (b.carrier ≡ c)
        × (cost_of b ≡ est.cost.minor)
  answered c b same t = elim (Result-cases (c.get_estimate (estimate_request req))) [
    | inl (est, p) ↦
        let here = same ∙ ap (candidate_of c) p in
        (est, p, ap (λ (x : Candidate). x.carrier) here, ap cost_of here)
    | inr (e, p) ↦ let here = same ∙ ap (candidate_of c) p in absurd (ground arith)
  ]

  -- The two ways in which a decision among given carriers ends.
  among :
      (now : Time) (es : List Carrier)
      → ((e : Error) × (decide_among cheapest_strategy now req es ≡ err e)
          × (((e ≡ no_eligible_carrier) × (es ≡ []))
              ⊎ ((e ≡ no_available_candidate) × All IsUnavailable (score_all req es))))
        ⊎ ((b : Candidate) × (dec : Decision) × (decide_among cheapest_strategy now req es ≡ ok dec)
            × IsFirstLeast cost_of (score_all req es) b
            × (dec.chosen ≡ b.carrier))
  unfolding decide_among
  among now [] = inl (no_eligible_carrier, refl, inl (refl, refl))
  among now (c ∷ cs) = elim (select_cheapest_lem req (score_all req (c ∷ cs))) [
    | inl (all, h) ↦ inl (no_available_candidate, rw h, inr (refl, all))
    | inr (b, sel, h, f, same) ↦
        inr (b, decision cheapest_strategy now (score_all req (c ∷ cs)) sel, rw h, f, same)
  ]

module _ (req : ShipmentRequest) (role : CarrierRole) (now : Time) (cs : List Carrier) where
  -- With the cheapest strategy `Decide` chooses a carrier of the registry that fits the shipment and
  -- that gave an estimate, and no fitting carrier gave a cheaper one.
  pub decide_route_cheapest :
      {dec : Decision}
      → decide_route cheapest_strategy now req role cs ≡ ok dec
      → (est : Estimate) × Memᴰ dec.chosen cs
        × Fits req role dec.chosen.capabilities
        × (dec.chosen.get_estimate (estimate_request req) ≡ ok est)
        × ((c : Carrier) (other : Estimate)
            → Memᴰ c cs
            → Fits req role c.capabilities
            → c.get_estimate (estimate_request req) ≡ ok other
            → est.cost.minor ≤ℤ other.cost.minor)
  unfolding decide_route
  decide_route_cheapest {dec} h = elim (among req now (eligible req role cs)) [
    | inl (e, p, q) ↦ absurd (ground arith)
    | inr (b, d, p, f, same) ↦
        let es = eligible req role cs in
        let (c, m, from) =
          origin req es b (subst (Memᴰ b) (sym f.split) (mem_middle f.before b f.after)) in
        let (est, q, at, price) = answered req c b from f.available in
        let chosen : dec.chosen ≡ c =
          ap (λ (x : Decision). x.chosen) (ok-injective (sym h ∙ p)) ∙ same ∙ at in
        let (there, fits) = (mem-eligible req role cs c).0 m in
        (
          est,
          subst (λ x. Memᴰ x cs) (sym chosen) there,
          subst (λ (x : Carrier). Fits req role x.capabilities) (sym chosen) fits,
          ap (λ (x : Carrier). x.get_estimate (estimate_request req)) chosen ∙ q,
          λ k other n fk r.
              let l =
                scored_least req k (cost_of b) other ((mem-eligible req role cs k).1 (n, fk))
                  (whole_list (score_all req es) b f) r in
              subst (λ z. z ≤ℤ other.cost.minor) price l,
        )
  ]

  -- Where it fails with that strategy, either no carrier of the registry fits the shipment and the error is
  -- `ErrNoEligibleCarrier`, or every fitting carrier refused an estimate and the error is
  -- `ErrNoAvailableCandidate`.
  pub decide_route_cheapest_err :
      {e : Error}
      → decide_route cheapest_strategy now req role cs ≡ err e
      → ((e ≡ no_eligible_carrier) × ((c : Carrier) → Memᴰ c cs → ¬ Fits req role c.capabilities))
        ⊎ ((e ≡ no_available_candidate)
            × ((c : Carrier)
                → Memᴰ c cs
                → Fits req role c.capabilities
                → (x : Error) × (c.get_estimate (estimate_request req) ≡ err x)))
  unfolding decide_route
  decide_route_cheapest_err {e} h = elim (among req now (eligible req role cs)) [
    | inl (x, p, inl (q, none_left)) ↦
        let same : e ≡ x = err-injective (sym h ∙ p) in
        inl (
          same ∙ q,
          λ c m f. not-nil (subst (Memᴰ c) none_left ((mem-eligible req role cs c).1 (m, f))),
        )
    | inl (x, p, inr (q, all)) ↦
        let same : e ≡ x = err-injective (sym h ∙ p) in
        inr
          (same ∙ q, λ c m f. scored_unavailable req c ((mem-eligible req role cs c).1 (m, f)) all)
    | inr (b, d, p, f, same) ↦ absurd (ground arith)
  ]
