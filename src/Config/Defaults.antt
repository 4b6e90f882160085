-- ===== src/Config/Defaults.antt =====
-- About the secrets that the configuration holds (internal/config/config.go).
use dashfetchr.Base.{
  Option, String, str_eq, eq_iff, ◌≡◌, ◌≢◌, arith, refl, Bool-cases, inl, inr, false,
}
use dashfetchr.Base.Int64.{ℤ}
use dashfetchr.Config.{load, env}

-- A variable with a default is never read as empty, and where it is unset, as the default.
env_default :
    (getenv : String → String) (key def : String)
    → str_eq def "" ≡ false
    → (env getenv key def ≢ "") × (getenv key ≡ "" → env getenv key def ≡ def)
unfolding env
env_default getenv key def h =
    let set = eq_iff (getenv key) "" in
    let given = eq_iff def "" in
    elim (Bool-cases (str_eq (getenv key) "")) [
      | inl e ↦ (λ k. ground arith, λ k. ground arith)
      | inr e ↦ (λ k. ground arith, λ k. ground arith)
    ]

-- Whatever the environment, the secret of webhooks and that of riders are set: where a variable is unset, to the
-- text in the source.
pub load_secrets :
    (getenv : String → String) (parse_duration : String → Option ℤ)
    → ((load getenv parse_duration).bolt.webhook_secret ≢ "")
      × ((load getenv parse_duration).bolt.rider_secret ≢ "")
      × (getenv "BOLT_WEBHOOK_SECRET" ≡ ""
          → (load getenv parse_duration).bolt.webhook_secret ≡ "local-dev-secret")
      × (getenv "BOLT_RIDER_SECRET" ≡ ""
          → (load getenv parse_duration).bolt.rider_secret ≡ "local-dev-rider-secret")
unfolding load
load_secrets getenv parse_duration =
    let (a, b) = env_default getenv "BOLT_WEBHOOK_SECRET" "local-dev-secret" refl in
    let (c, d) = env_default getenv "BOLT_RIDER_SECRET" "local-dev-rider-secret" refl in
    (a, c, b, d)
