-- ===== src/Core/Pricing.antt =====
-- internal/core/pricing/pricing.go: what a customer pays. The functions of package math that have no exact
-- definition, sine, cosine, square root and arctangent, are a `Maths`; products and sums are each
-- rounded, as on amd64, where none is fused. `wild` is what the processor makes of a float that does not
-- fit in an int64. Amounts are int64 and wrap.
pub mod Fares
use dashfetchr.Base.{
  not, Bool, ◌&&◌, Option, none, some, String, List, [], ◌∷◌, str_eq, if◌then◌else◌,
}
use dashfetchr.Base.Int64.{ℤ, pos, int64, ◌+ℤ◌, ◌-ℤ◌, ltb_ℤ}
use dashfetchr.Base.Float64.{Float64, whole, lt_f}
use dashfetchr.Base.Float64.Arith.{add_f, sub_f, mul_f, div_f, round_f, to_int, pi}
use dashfetchr.Base.Time.{Time, hour}
use dashfetchr.Ports.Carrier.{Money}
use dashfetchr.Routing.Strategy.{float_of_int}

pub record Discount : Type 0 where
  pub code : String
  pub amount : Money

pub record Quote : Type 0 where
  pub base_fare : Money
  pub distance_fare : Money
  pub size_modifier : Money
  pub slot_premium : Money
  pub discounts : List Discount
  pub subtotal : Money
  pub total : Money
  pub distance_meters : Float64
  pub currency : String

pub record Config : Type 0 where
  pub currency : String
  pub base_fare_minor : ℤ
  pub per_km_minor : ℤ
  pub oversize_flat_minor : ℤ
  pub oversize_weight_kg : Float64
  pub slot_premium_minor : ℤ
  pub evening_start : ℤ
  pub evening_end : ℤ

unfoldable pub default_config : Config
default_config = record {
  currency = "RON";
  base_fare_minor = pos 800;
  per_km_minor = pos 200;
  oversize_flat_minor = pos 300;
  oversize_weight_kg = whole 5;
  slot_premium_minor = pos 200;
  evening_start = pos 18;
  evening_end = pos 22;
}

pub record Coord : Type 0 where
  pub lat : Float64
  pub lng : Float64

pub record Request : Type 0 where
  pub pickup : Coord
  pub drop : Coord
  pub weight_kg : Float64
  pub slot_start : Option Time
  pub discount_code : String

pub record Maths : Type 0 where
  pub sin : Float64 → Float64
  pub cos : Float64 → Float64
  pub sqrt : Float64 → Float64
  pub atan2 : Float64 → Float64 → Float64

abbrev radians : Float64 → Float64
radians x = div_f (mul_f x pi) (whole 180)

unfoldable pub haversine_meters : Maths → Coord → Coord → Float64
unfolding add_f sub_f mul_f div_f pi
haversine_meters m a b =
    let lat1 = radians a.lat in
    let lat2 = radians b.lat in
    let dlat = radians (sub_f b.lat a.lat) in
    let dlng = radians (sub_f b.lng a.lng) in
    let sin_lat = m.sin (div_f dlat (whole 2)) in
    let sin_lng = m.sin (div_f dlng (whole 2)) in
    let h =
      add_f (mul_f sin_lat sin_lat)
        (mul_f (mul_f (mul_f (m.cos lat1) (m.cos lat2)) sin_lng) sin_lng) in
    let c = mul_f (whole 2) (m.atan2 (m.sqrt h) (m.sqrt (sub_f (whole 1) h))) in
    mul_f (whole 6371000) c

-- h >= start && h < end
unfoldable pub is_evening_slot : Config → Time → Bool
is_evening_slot cfg t =
    let h = hour t in not (ltb_ℤ (pos h) cfg.evening_start) && ltb_ℤ (pos h) cfg.evening_end

unfoldable pub lookup_discount : Config → String → ℤ → Option Discount
lookup_discount cfg code subtotal =
    if str_eq code "WELCOME"
    then some
        (record { code = "WELCOME"; amount = record { currency = cfg.currency; minor = pos 500 } })
    else if str_eq code "FIRST_FREE"
    then some (record {
      code = "FIRST_FREE";
      amount = record { currency = cfg.currency; minor = subtotal };
    })
    else none

-- base + distance + size + slot, in int64
unfoldable pub sum_minor : (base distance size slot : ℤ) → ℤ
unfolding int64 ◌+ℤ◌
sum_minor base distance size slot = int64 (int64 (int64 (base +ℤ distance) +ℤ size) +ℤ slot)

module _ (m : Maths) (wild : Float64 → ℤ) (cfg : Config) where
  abbrev pub money : ℤ → Money
  money v = record { currency = cfg.currency; minor = v }

  unfoldable pub distance_minor : Request → ℤ
  unfolding haversine_meters mul_f div_f round_f to_int
  distance_minor r = to_int wild (
      round_f (
        mul_f (div_f (haversine_meters m r.pickup r.drop) (whole 1000))
          (float_of_int cfg.per_km_minor)))

  unfoldable pub size_minor : Request → ℤ
  size_minor r = if lt_f cfg.oversize_weight_kg r.weight_kg then cfg.oversize_flat_minor else pos 0

  unfoldable pub slot_minor : Option Time → ℤ
  unfolding is_evening_slot
  slot_minor none = pos 0
  slot_minor (some t) = if is_evening_slot cfg t then cfg.slot_premium_minor else pos 0

  unfoldable pub subtotal_minor : Request → ℤ
  unfolding sum_minor
  subtotal_minor r =
      sum_minor cfg.base_fare_minor (distance_minor r) (size_minor r) (slot_minor r.slot_start)

  -- The discount of a code that is not empty.
  unfoldable pub discount_of : String → ℤ → Option Discount
  unfolding lookup_discount
  discount_of code subtotal = if str_eq code "" then none else lookup_discount cfg code subtotal

  unfoldable pub reduced : ℤ → Option Discount → ℤ
  reduced subtotal none = subtotal
  reduced subtotal (some d) =
      let total = int64 (subtotal -ℤ d.amount.minor) in if ltb_ℤ total (pos 0) then pos 0 else total

  abbrev listed : Option Discount → List Discount
  listed none = []
  listed (some d) = d ∷ []

  -- Engine.Quote
  unfoldable pub quote : Request → Quote
  unfolding reduced discount_of subtotal_minor
  quote r =
      let subtotal = subtotal_minor r in
      let discount = discount_of r.discount_code subtotal in
      record {
        base_fare = money cfg.base_fare_minor;
        distance_fare = money (distance_minor r);
        size_modifier = money (size_minor r);
        slot_premium = money (slot_minor r.slot_start);
        discounts = listed discount;
        subtotal = money subtotal;
        total = money (reduced subtotal discount);
        distance_meters = haversine_meters m r.pickup r.drop;
        currency = cfg.currency;
      }
