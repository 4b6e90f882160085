-- ===== src/Examples/Ledgers.antt =====
-- Runs of the custody ledger (internal/core/custody) over the in-memory store.
use dashfetchr.Base.{
  ℕ, ◌++◌, ◌==◌, true, false, Option, none, some, ◌≡◌, ◌≢◌, refl, ◌↔◌, ◌⊎◌, List, [], ◌∷◌, arith,
  length, get_last?, if◌then◌else◌,
}
use dashfetchr.Base.Uuid.{Uuid}
use dashfetchr.Core.Errors.{Result, ok, err}
use dashfetchr.Core.Custody.{Event, package_picked_up, rider_in_transit, rider_assigned, validate}
use dashfetchr.Core.Custody.Hashing.{genesis_hash, compute_hash}
use dashfetchr.Core.Custody.Ledger.{link, record_event, verify_from}
use dashfetchr.Core.Custody.Chain.{IsChain, verify_from_iff}
use dashfetchr.Core.Custody.Recording.{IsIntact, record_event-IsIntact, has_event}
use dashfetchr.Core.Custody.Tampering.{IsHex, Collision, SameContents, verify_tamper_evident}
use dashfetchr.Infra.Memory.CustodyRepo.{
  CustodyRepo, new, events_of, custody_repository, custody_repository-IsRepository,
}
use dashfetchr.Examples.Fixtures.{tally, event_of_type}

abbrev run : CustodyRepo × Result Event
run = record_event custody_repository tally 101 (event_of_type package_picked_up) new

abbrev event_of : Result Event → Event
event_of (ok e) = e
event_of (err x) = event_of_type rider_assigned

abbrev first : Event
first = event_of run.1

abbrev second : Event
second =
    event_of (record_event custody_repository tally 102 (event_of_type rider_in_transit) run.0).1

unused : (id : Uuid) → has_event 101 (events_of new id) ≡ false
unfolding has_event events_of dashfetchr.Base.Maps.lookup
unused id = refl

intact : IsIntact tally events_of new
unfolding events_of dashfetchr.Base.Maps.lookup
intact id = tt

tally-IsHex : IsHex tally
tally-IsHex b = ((λ h. ground arith), tt)

record_event-IsIntact_example : IsIntact tally events_of run.0
record_event-IsIntact_example =
    record_event-IsIntact custody_repository tally events_of custody_repository-IsRepository 101
      (event_of_type package_picked_up) new unused intact

abbrev bare : Event
bare = record (event_of_type package_picked_up) { photos = [] }

verify_from_iff_example :
    (verify_from tally 0 (genesis_hash tally) (first ∷ second ∷ []) ≡ none)
    ↔ IsChain tally 0 (genesis_hash tally) (first ∷ second ∷ [])
verify_from_iff_example = verify_from_iff tally 0 (genesis_hash tally) (first ∷ second ∷ [])

verify_tamper_evident_example :
    Collision tally ⊎ SameContents tally (first ∷ second ∷ []) (first ∷ second ∷ [])
unfolding verify_from record_event validate dashfetchr.Infra.Memory.CustodyRepo.last_by_delivery
    compute_hash dashfetchr.Infra.Memory.CustodyRepo.append dashfetchr.Base.Maps.lookup link
    dashfetchr.Base.Int64.int64 dashfetchr.Base.bytes_eq genesis_hash dashfetchr.Base.Maps.insert
    dashfetchr.Base.Int64.◌+ℤ◌
verify_tamper_evident_example =
    verify_tamper_evident tally tally-IsHex (first ∷ second ∷ []) (first ∷ second ∷ []) refl refl
      refl refl
