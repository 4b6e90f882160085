-- ===== src/Core/Retailer.antt =====
-- internal/core/retailer/retailer.go: a shop that books deliveries.
use dashfetchr.Base.{String, Bool}
use dashfetchr.Base.Uuid.{Uuid}

pub record Retailer : Type 0 where
  pub id : Uuid
  pub name : String
  pub slug : String
  pub is_active : Bool
