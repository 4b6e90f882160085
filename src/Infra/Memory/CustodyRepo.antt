-- ===== src/Infra/Memory/CustodyRepo.antt =====
-- internal/infra/memory/custody_repo.go: the custody events of each delivery, and the ledger's port.
pub mod Races
use dashfetchr.Base.{
  false, Option, none, some, ◌≡◌, List, [], ◌∷◌, ◌++◌, arith, if◌then◌else◌, ◌==◌, get_last?,
}
use dashfetchr.Base.Uuid.{Uuid}
use dashfetchr.Base.Maps.{Map, lookup, insert, or_nil, nat_eq, lookup-insert}
use dashfetchr.Core.Errors.{Error, external, Result, ok}
use dashfetchr.Core.Custody.{Event}
use dashfetchr.Core.Custody.Ledger.{Repository}
use dashfetchr.Core.Custody.Recording.{has_event, IsRepository}

pub record CustodyRepo : Type 0 where
  pub by_del : Map Uuid (List Event)

abbrev pub new : CustodyRepo
new = record { by_del = [] }

-- What `r.byDel[id]` reads.
unfoldable pub events_of : CustodyRepo → Uuid → List Event
events_of r id = or_nil (lookup id r.by_del)

-- An event whose identifier is there is not appended again, and this is no error.
unfoldable pub append : Event → CustodyRepo → CustodyRepo × Option Error
unfolding events_of has_event
append e r =
    let events = events_of r e.delivery_id in
    if has_event e.event_id events
    then (r, none)
    else (record { by_del = insert e.delivery_id (events ++ e ∷ []) r.by_del }, none)

unfoldable pub last_by_delivery : Uuid → CustodyRepo → Result (Option Event)
unfolding events_of
last_by_delivery id r = ok (get_last? (events_of r id))

unfoldable pub list_by_delivery : Uuid → CustodyRepo → Result (List Event)
unfolding events_of
list_by_delivery id r = ok (events_of r id)

unfoldable pub verify_all : Uuid → CustodyRepo → Option Error
verify_all id r = elim (lookup id r.by_del) [
  | none ↦ some (external "memory: no events")
  | some events ↦ none
]

abbrev pub custody_repository : Repository CustodyRepo
custody_repository = record {
  append = append;
  last_by_delivery = last_by_delivery;
  list_by_delivery = list_by_delivery;
}

pub events_of-append :
    (e : Event) (r : CustodyRepo) (id : Uuid)
    → has_event e.event_id (events_of r e.delivery_id) ≡ false
    → events_of (append e r).0 id
      ≡ (if e.delivery_id == id then events_of r id ++ e ∷ [] else events_of r id)
unfolding append
events_of-append e r id fresh = rw fresh (
    rw (lookup-insert e.delivery_id id (events_of r e.delivery_id ++ e ∷ []) r.by_del)
      (ground arith))

pub append_succeeds : (e : Event) (r : CustodyRepo) → (append e r).1 ≡ none
unfolding append
append_succeeds e r = ground arith

-- The in-memory store keeps the laws of the ledger's port, over the events that it holds.
pub custody_repository-IsRepository : IsRepository custody_repository events_of
custody_repository-IsRepository = record {
  last = λ id s h. unfold last_by_delivery events_of in cc;
  listed = λ id s h. unfold list_by_delivery events_of in cc;
  appended = λ e s fresh h id. events_of-append e s id (fresh e.delivery_id);
  refused = λ e s h id. absurd (cc (h, append_succeeds e s));
}
