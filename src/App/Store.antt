-- ===== src/App/Store.antt =====
-- The stores that the services share (internal/app/app.go wires them), in their in-memory form.
use dashfetchr.Infra.Memory.AwbRepo.{AwbRepo, new as new_awbs}
use dashfetchr.Infra.Memory.DeliveryRepo.{DeliveryRepo, new as new_deliveries}
use dashfetchr.Infra.Memory.CustodyRepo.{CustodyRepo, new as new_custody}

pub record Store : Type 0 where
  pub awbs : AwbRepo
  pub deliveries : DeliveryRepo
  pub custody : CustodyRepo

abbrev pub new_store : Store
new_store = record { awbs = new_awbs; deliveries = new_deliveries; custody = new_custody }
