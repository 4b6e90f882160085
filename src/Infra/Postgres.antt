-- ===== src/Infra/Postgres.antt =====
-- internal/infra/postgres: the stores over PostgreSQL: what each statement is given, and what is read back.
pub mod Json
pub mod DeliveryRow
pub mod DeliveryRepo
pub mod AwbRepo
pub mod CustodyRepo
pub mod RetailerRepo
