-- ===== src/Examples/Races.antt =====
-- Two custody events for one delivery, recorded at once (internal/core/custody/ledger.go).
use dashfetchr.Base.{suc, length, some, ◌≡◌, refl, List, [], ◌∷◌}
use dashfetchr.Base.Uuid.{Uuid}
use dashfetchr.Core.Errors.{ok, chain_broken}
use dashfetchr.Core.Custody.{Event, rider_assigned}
use dashfetchr.Core.Custody.Ledger.{interleaved, record_event, verify}
use dashfetchr.Core.Custody.Recording.{IsIntact, has_event}
use dashfetchr.Infra.Memory.CustodyRepo as CustodyRepo
use dashfetchr.Infra.Memory.CustodyRepo.{CustodyRepo, custody_repository, events_of}
use dashfetchr.Infra.Memory.CustodyRepo.Races.{verify-interleaved}
use dashfetchr.Examples.Fixtures.{tally, event_of_type}

abbrev offer : Event
offer = event_of_type rider_assigned

-- What the ledger makes of it, where no event is there.
abbrev made : Uuid → Event
made n = record offer { event_id = n; prev_hash = 77 ∷ []; hash = 51 ∷ [] }

alone : (n : Uuid) → (record_event custody_repository tally n offer CustodyRepo.new).1 ≡ ok (made n)
unfolding record_event dashfetchr.Core.Custody.validate CustodyRepo.last_by_delivery
    dashfetchr.Core.Custody.Hashing.compute_hash CustodyRepo.append dashfetchr.Base.Maps.lookup
    dashfetchr.Core.Custody.Ledger.link dashfetchr.Core.Custody.Hashing.genesis_hash
alone n = refl

empty-IsIntact : IsIntact tally events_of CustodyRepo.new
unfolding events_of dashfetchr.Base.Maps.lookup
empty-IsIntact id = tt

verify-interleaved_example :
    (t : CustodyRepo) × (interleaved custody_repository tally 1 offer 2 offer CustodyRepo.new
      ≡ (t, ok (made 1), ok (made 2)))
    × (verify custody_repository tally 7 t
        ≡ some (chain_broken (suc (length (events_of CustodyRepo.new 7))) "sequence gap"))
unfolding events_of has_event dashfetchr.Base.Maps.lookup
verify-interleaved_example =
    verify-interleaved tally 1 2 offer offer CustodyRepo.new empty-IsIntact (λ id. refl)
      (λ id. refl) refl refl (alone 1) (alone 2)
