-- ===== src/Infra/Http/Access.antt =====
-- About who reaches which handler (internal/infra/http/middleware/auth.go and rider_auth.go).
use dashfetchr.Base.{
  Option-cases, Bool-cases, ◌⊎◌, ◌≢◌, ◌≡◌, inl, inr, arith, true, some, String, str_eq, eq_iff, cut,
  ◌<>◌, cut_colon, ◌||◌,
}
use dashfetchr.Base.Maps.{Map, string_eq, lookup}
use dashfetchr.Core.Errors.{Result, ok, Result-cases}
use dashfetchr.Core.Retailer.{Retailer}
use dashfetchr.Auth.{Context, hash_api_key, with_retailer, with_carrier_id}
use dashfetchr.App.Store.{Store}
use dashfetchr.Infra.Http.Message.{Request, Handler}
use dashfetchr.Infra.Http.Middleware.{api_key_from_request, require_retailer, require_rider}

-- The request carries the key of this active retailer.
abbrev pub IsCaller : (String → Result Retailer) → (String → String) → Request → Retailer → Type 0
IsCaller get_by_api_key_hash sha256_hex r ret =
    (api_key_from_request r ≢ "")
    × (get_by_api_key_hash (hash_api_key sha256_hex (api_key_from_request r)) ≡ ok ret)
    × (ret.is_active ≡ true)

module _ (get_by_api_key_hash : String → Result Retailer) (sha256_hex : String → String)
    (next : Handler) (ctx : Context) (r : Request) (s : Store) where
  -- A request either reaches the handler, with the active retailer whose key it carries in the context, or is
  -- answered by 401, 403 or 500 and changes no store.
  pub require_retailer_lem :
      ((ret : Retailer) × IsCaller get_by_api_key_hash sha256_hex r ret
        × (require_retailer get_by_api_key_hash sha256_hex next ctx r s
            ≡ next (with_retailer ctx ret) r s))
      ⊎ (((require_retailer get_by_api_key_hash sha256_hex next ctx r s).0 ≡ s)
          × (((require_retailer get_by_api_key_hash sha256_hex next ctx r s).1.status ≡ 401)
              ⊎ (((require_retailer get_by_api_key_hash sha256_hex next ctx r s).1.status ≡ 403)
                  ⊎ ((require_retailer get_by_api_key_hash sha256_hex next ctx r s).1.status
                      ≡ 500))))
  unfolding require_retailer
  require_retailer_lem =
      let key = api_key_from_request r in
      let iff = eq_iff key "" in
      elim (Bool-cases (str_eq key "")) [
        | inl e ↦ inr (ground arith, ground arith)
        | inr e ↦ elim (Result-cases (get_by_api_key_hash (hash_api_key sha256_hex key))) [
          | inr (x, p) ↦ inr (ground arith, ground arith)
          | inl (ret, p) ↦ elim (Bool-cases ret.is_active) [
            | inr q ↦ inr (ground arith, ground arith)
            | inl q ↦ inl (ret, (ground arith, p, q), ground arith)
          ]
        ]
      ]

-- The token of the request is this carrier's: its identifier, a colon, and its secret.
abbrev pub IsRider : Map String String → Request → String → Type 0
IsRider secrets r carrier_id =
    (secret : String) × (api_key_from_request r ≡ carrier_id <> ":" <> secret)
    × (lookup carrier_id secrets ≡ some secret)
    × (secret ≢ "")
    × (carrier_id ≢ "")

module _ (secrets : Map String String) (next : Handler) (ctx : Context) (r : Request)
    (s : Store) where
  -- A request either reaches the handler, with the carrier whose secret its token holds in the context, or is
  -- answered by 401 and changes no store.
  pub require_rider_lem :
      ((carrier_id : String) × IsRider secrets r carrier_id
        × (require_rider secrets next ctx r s ≡ next (with_carrier_id ctx carrier_id) r s))
      ⊎ (((require_rider secrets next ctx r s).0 ≡ s)
          × ((require_rider secrets next ctx r s).1.status ≡ 401))
  unfolding require_rider
  require_rider_lem =
      let raw = api_key_from_request r in
      elim (Bool-cases (str_eq raw "")) [
        | inl e ↦ inr (ground arith, ground arith)
        | inr e ↦ elim (Option-cases (cut 58 raw)) [
          | inl p ↦ inr (ground arith, ground arith)
          | inr ((carrier_id, secret), p) ↦ elim (Option-cases (lookup carrier_id secrets)) [
            | inl q ↦ inr (ground arith, ground arith)
            | inr (expected, q) ↦
                let e1 = eq_iff secret "" in
                let e2 = eq_iff carrier_id "" in
                let e3 = eq_iff secret expected in
                elim (Bool-cases (str_eq carrier_id "" || str_eq secret "")) [
                  | inl t ↦ inr (ground arith, ground arith)
                  | inr t ↦ elim (Bool-cases (str_eq secret expected)) [
                    | inr u ↦ inr (ground arith, ground arith)
                    | inl u ↦
                        let same : secret ≡ expected = e3.0 u in
                        inl (
                          carrier_id,
                          (
                            secret,
                            cut_colon raw carrier_id secret p,
                            ground arith,
                            ground (arith, e1),
                            ground (arith, e2),
                          ),
                          ground arith,
                        )
                  ]
                ]
          ]
        ]
      ]

-- The key stands in the headers.
pub api_key_of_headers :
    (r r2 : Request) → r2.headers ≡ r.headers → api_key_from_request r2 ≡ api_key_from_request r
unfolding api_key_from_request
api_key_of_headers r r2 h = ground arith

pub caller_admitted :
    (get_by_api_key_hash : String → Result Retailer) (sha256_hex : String → String) (next : Handler)
    (ctx : Context) (r : Request) (s : Store) (ret : Retailer)
    → IsCaller get_by_api_key_hash sha256_hex r ret
    → require_retailer get_by_api_key_hash sha256_hex next ctx r s
      ≡ next (with_retailer ctx ret) r s
unfolding require_retailer
caller_admitted get_by_api_key_hash sha256_hex next ctx r s ret (some_key, known, active) =
    let iff = eq_iff (api_key_from_request r) "" in ground arith
