-- ===== src/Adapters/Bolt/Types.antt =====
-- internal/adapters/carriers/bolt/types.go: the shapes of Bolt's requests, answers and webhooks. Go's int has
-- 64 bits.
use dashfetchr.Base.{Option, String, Bool}
use dashfetchr.Base.Int64.{ℤ}
use dashfetchr.Base.Float64.{Float64}
use dashfetchr.Base.Time.{Time}

pub record BoltLocation : Type 0 where
  pub lat : Float64
  pub lng : Float64
  pub address : String
  pub floor : String
  pub apartment : String
  pub notes : String

pub record BoltPackageDims : Type 0 where
  pub length_cm : ℤ
  pub width_cm : ℤ
  pub height_cm : ℤ

pub record BoltPackage : Type 0 where
  pub weight_grams : ℤ
  pub dimensions : BoltPackageDims
  pub description : String
  pub value : ℤ
  pub currency : String

pub record BoltRecipient : Type 0 where
  pub name : String
  pub phone : String

pub record BoltCreateOrderRequest : Type 0 where
  pub external_ref : String
  pub pickup : BoltLocation
  pub drop : BoltLocation
  pub pkg : BoltPackage
  pub recipient : BoltRecipient
  pub service_area : String
  pub requires_photo_pod : Bool
  pub scheduled_for : Option Time

pub record BoltMoney : Type 0 where
  pub cents : ℤ
  pub currency : String

pub record BoltRider : Type 0 where
  pub id : String
  pub name : String
  pub phone : String
  pub vehicle : String

pub record BoltOrder : Type 0 where
  pub order_id : String
  pub status : String
  pub price : BoltMoney
  pub estimated_pickup : Option Time
  pub estimated_drop : Option Time
  pub tracking_url : String
  pub rider : Option BoltRider
  pub last_location : Option BoltLocation
  pub updated_at : Time

pub record BoltEstimateRequest : Type 0 where
  pub pickup : BoltLocation
  pub drop : BoltLocation
  pub pkg : BoltPackage
  pub service_area : String
  pub scheduled_for : Option Time

pub record BoltEstimateResponse : Type 0 where
  pub price : BoltMoney
  pub estimated_eta_sec : ℤ
  pub confidence : Float64

pub record BoltWebhookPayload : Type 0 where
  pub event : String
  pub order_id : String
  pub timestamp : Time
  pub rider : Option BoltRider
  pub location : Option BoltLocation
  pub photo_url : String
  pub reason : String
