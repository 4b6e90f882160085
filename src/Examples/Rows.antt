-- ===== src/Examples/Rows.antt =====
-- Runs of the PostgreSQL stores (internal/infra/postgres), over a database that keeps what it is given.
use dashfetchr.Base.{none, some, Bytes, codes, [], ◌∷◌, ◌≡◌, refl, arith, map, ◌==◌, if◌then◌else◌}
use dashfetchr.Core.Errors.{Error, ok, err, wrapped, external}
use dashfetchr.Core.Delivery.{Location, LocationType}
use dashfetchr.Core.Delivery as Delivery
use dashfetchr.Core.Custody.{Event, rider_assigned}
use dashfetchr.Core.Custody.Ledger.{verify_from}
use dashfetchr.Infra.Postgres.Json.{Codec}
use dashfetchr.Infra.Postgres.DeliveryRepo as DeliveryRepo
use dashfetchr.Infra.Postgres.DeliveryRow as DeliveryRow
use dashfetchr.Infra.Postgres.DeliveryRepo.RoundTrip as Deliveries
use dashfetchr.Infra.Postgres.DeliveryRepo.Upserts as Upserts
use dashfetchr.Infra.Postgres.AwbRepo as AwbRepo
use dashfetchr.Infra.Postgres.AwbRepo.RoundTrip as Parcels
use dashfetchr.Infra.Postgres.CustodyRepo as CustodyRepo
use dashfetchr.Infra.Postgres.CustodyRepo.RoundTrip as Ledgers
use dashfetchr.Examples.Fixtures.{
  waiting, parcel, locker_place, home, courier, here, picture, event_of_type, tally,
}

-- A codec that knows one value.
abbrev constant {ℓ} : {A : Type ℓ} → A → Codec A
constant v = record { marshal = λ x. ok (123 ∷ 125 ∷ []); unmarshal = λ b. ok v }

abbrev tag : LocationType → Bytes
tag Delivery.locker = 49 ∷ []
tag _ = 50 ∷ []

-- One that knows the two places of the delivery.
abbrev places : Codec Location
places = record {
  marshal = λ l. ok (tag l.type);
  unmarshal = λ b. elim b [ [] ↦ ok home | x ∷ xs ↦ if x == 49 then ok locker_place else ok home ];
}

abbrev same {ℓ} : {A : Type ℓ} → A → A
same x = x

abbrev legs : DeliveryRow.Database
legs = record {
  locations = places;
  riders = constant DeliveryRow.zero_rider;
  keep_json = same;
  keep_time = same;
  keep_range = same;
  refuses = λ t r. none;
  unreadable = none;
  by_leg = same;
  by_creation = same;
}

legs-IsFaithful : Deliveries.IsFaithful legs waiting
legs-IsFaithful = record {
  pickup = λ b h. (λ e. ground arith, ground arith);
  drop = λ b h. (λ e. ground arith, ground arith);
  riders = λ v h. absurd (ground arith);
  riders_not_null = λ v b h. absurd (ground arith);
  null = refl;
  no_range = refl;
  range = λ a b h. refl;
}

get_by_id-save_example :
    ((DeliveryRepo.save legs waiting []).1 ≡ none)
    × (DeliveryRepo.get_by_id legs 7 (DeliveryRepo.save legs waiting []).0
        ≡ ok (
            Upserts.resaved
              (DeliveryRow.first (λ k. k.id == 7) [])
              (Deliveries.as_kept legs waiting)))
unfolding DeliveryRepo.row_of
get_by_id-save_example = Upserts.get_by_id-save legs [] waiting legs-IsFaithful refl tt refl refl

abbrev null_refused : Error
null_refused = external "cannot scan NULL into *string"

abbrev parcels : AwbRepo.Database
parcels = record {
  refs = constant [];
  packages = constant parcel.pkg;
  keep_json = same;
  keep_time = same;
  scan_text = λ o. elim o [ none ↦ err null_refused | some s ↦ ok s ];
  refuses = λ t r. none;
  unreadable = none;
}

parcels-IsFaithful : Parcels.IsFaithful parcels null_refused parcel
parcels-IsFaithful = record {
  refs = λ b h. (λ e. ground arith, refl);
  packages = λ b h. (λ e. ground arith, refl);
  text = λ s. refl;
  null = refl;
}

scan_awb-row_of_example :
    (r : AwbRepo.Row) × (AwbRepo.row_of parcels parcel ≡ ok r)
    × (AwbRepo.scan_awb parcels (AwbRepo.kept parcels r)
        ≡ err (wrapped "postgres: scan awb" null_refused))
unfolding AwbRepo.row_of
scan_awb-row_of_example =
    (_, refl, (Parcels.scan_awb-row_of parcels parcel parcels-IsFaithful refl).1 refl)

abbrev chain : CustodyRepo.Database
chain = record {
  actors = constant courier;
  locations = constant here;
  photos = record {
    marshal = λ ps. ok (123 ∷ 125 ∷ []);
    unmarshal = λ b. elim b [ [] ↦ ok [] | x ∷ xs ↦ if x == 91 then ok [] else ok (picture ∷ []) ];
  };
  signatures = constant CustodyRepo.zero_signature;
  keep_json = same;
  keep_time = same;
  ascending = same;
  descending = same;
  refuses = λ t r. none;
  unreadable = none;
}

abbrev assigned : Event
assigned = event_of_type rider_assigned

chain-IsFaithful : Ledgers.IsFaithful chain assigned
unfolding codes
chain-IsFaithful = record {
  actor = λ b h. (λ e. ground arith, refl);
  location = λ v b o h. (λ e. ground arith, λ e. ground arith, λ e. ground arith, ground arith);
  photos = λ b h. (λ e. ground arith, ground arith);
  signature = λ v b o. absurd (ground arith);
  no_photos = (λ e. ground arith, refl);
  no_metadata = refl;
}

scan_custody_event-row_of_example :
    (r : CustodyRepo.Row) × (CustodyRepo.row_of chain assigned ≡ ok r)
    × (CustodyRepo.scan_custody_event chain (CustodyRepo.kept chain r)
        ≡ ok (Ledgers.as_kept chain assigned))
unfolding CustodyRepo.row_of
scan_custody_event-row_of_example =
    (_, refl, Ledgers.scan_custody_event-row_of chain assigned chain-IsFaithful refl refl)

verify_from-as_kept_example :
    verify_from tally 0 [] (map (Ledgers.as_kept chain) (assigned ∷ []))
    ≡ verify_from tally 0 [] (assigned ∷ [])
verify_from-as_kept_example =
    Ledgers.verify_from-as_kept chain tally (λ t. refl) 0 [] (assigned ∷ [])
