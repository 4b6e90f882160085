-- ===== src/Core/Pricing/Fares.antt =====
-- About the amounts of a quote (internal/core/pricing/pricing.go).
use dashfetchr.Base.{
  refl, ◌∙◌, ◌≤◌, ap, ℕ, ◌+◌, ◌-◌, ◌<◌, ◌^◌, leb, ltb, ◌&&◌, Option, none, some, String, str_eq,
  eq_iff, Bool-cases, inl, inr, ◌≡◌, arith, if◌then◌else◌,
}
use dashfetchr.Base.Int64.{ℤ, pos, int64, ◌-ℤ◌}
use dashfetchr.Base.Float64.{Float64, whole, lt_f}
use dashfetchr.Base.Time.{Time, hour}
use dashfetchr.Core.Pricing.{
  Maths, Request, Config, default_config, quote, distance_minor, size_minor, slot_minor,
  subtotal_minor, sum_minor, reduced, discount_of, lookup_discount,
}

-- The price after a code, of a subtotal that is not negative: 500 off, but not below nothing; or nothing.
abbrev pub discounted : String → ℕ → ℕ
discounted code n =
    if str_eq code "WELCOME" then n - 500 else if str_eq code "FIRST_FREE" then 0 else n

-- From 18 to 22 o'clock, on the slot's own clock.
abbrev pub evening : Option Time → ℕ
evening none = 0
evening (some t) = if leb 18 (hour t) && ltb (hour t) 22 then 200 else 0

-- Above 5 kg.
abbrev pub oversize : Float64 → ℕ
oversize w = if lt_f (whole 5) w then 300 else 0

oversize-le : (w : Float64) → oversize w ≤ 300
oversize-le w = ground arith

evening-le : (o : Option Time) → evening o ≤ 200
evening-le none = omega arith
evening-le (some t) = ground arith

sum_small :
    (a b c e : ℕ)
    → a + b + c + e < 2 ^ 63
    → sum_minor (pos a) (pos b) (pos c) (pos e) ≡ pos (a + b + c + e)
unfolding sum_minor
sum_small a b c e h = ground arith

module _ (m : Maths) (wild : Float64 → ℤ) where
  size_default : (r : Request) → size_minor m wild default_config r ≡ pos (oversize r.weight_kg)
  unfolding size_minor default_config
  size_default r = ground arith

  slot_default : (o : Option Time) → slot_minor m wild default_config o ≡ pos (evening o)
  unfolding slot_minor default_config
  slot_default none = refl
  slot_default (some t) = ground arith

  reduced_lem :
      (cfg : Config) (code : String) (n : ℕ)
      → n < 2 ^ 63
      → reduced m wild cfg (pos n) (discount_of m wild cfg code (pos n)) ≡ pos (discounted code n)
  unfolding reduced discount_of lookup_discount int64 ◌-ℤ◌
  reduced_lem cfg code n h = elim (Bool-cases (str_eq code "")) [
    | inl e ↦ rw ((eq_iff code "").0 e)
    | inr e ↦ elim (Bool-cases (str_eq code "WELCOME")) [
      | inl f ↦ rw (e, f) (ground arith)
      | inr f ↦ elim (Bool-cases (str_eq code "FIRST_FREE")) [
        | inl g ↦ rw (e, f, g) (ground arith)
        | inr g ↦ rw (e, f, g)
      ]
    ]
  ]

  sum_default :
      (r : Request) {d : ℕ}
      → distance_minor m wild default_config r ≡ pos d
      → d < 2 ^ 62
      → subtotal_minor m wild default_config r
        ≡ pos (800 + d + oversize r.weight_kg + evening r.slot_start)
  unfolding subtotal_minor default_config
  sum_default r {d} h small =
      let size = size_default r in
      let slot = slot_default r.slot_start in
      ap
        (λ t.
          sum_minor (pos 800) t (size_minor m wild default_config r)
            (slot_minor m wild default_config r.slot_start))
        h
      ∙ ap (λ t. sum_minor (pos 800) (pos d) t (slot_minor m wild default_config r.slot_start)) size
      ∙ ap (λ t. sum_minor (pos 800) (pos d) (pos (oversize r.weight_kg)) t) slot
      ∙ sum_small 800 d (oversize r.weight_kg) (evening r.slot_start)
          (omega (arith, oversize-le r.weight_kg, evening-le r.slot_start))

  -- With the default configuration: 8 RON, the distance's fare, 3 RON above 5 kg, 2 RON for a slot that starts
  -- from 18 to 22 o'clock, and then the code's discount, as long as the distance's fare is below 2^62.
  pub quote_default :
      (r : Request) {d : ℕ}
      → distance_minor m wild default_config r ≡ pos d
      → d < 2 ^ 62
      → (quote m wild default_config r).total.minor
        ≡ pos (discounted r.discount_code (800 + d + oversize r.weight_kg + evening r.slot_start))
  unfolding quote
  quote_default r {d} h small =
      let n = 800 + d + oversize r.weight_kg + evening r.slot_start in
      let sum : subtotal_minor m wild default_config r ≡ pos n = sum_default r h small in
      let small_sum : n < 2 ^ 63 =
        omega (arith, oversize-le r.weight_kg, evening-le r.slot_start) in
      ap
        (λ t. reduced m wild default_config t (discount_of m wild default_config r.discount_code t))
        sum
      ∙ reduced_lem default_config r.discount_code n small_sum
