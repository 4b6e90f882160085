-- ===== src/App/Custodyapp/Unused.antt =====
-- Which identifiers stay unused when `Record` of the custody service
-- (internal/app/custodyapp/service.go) has recorded an event.
use dashfetchr.Base.{
  ◌⊎◌, ◌||◌, ℕ, false, Option, none, some, ◌≡◌, refl, ap, ◌∙◌, List, [], ◌∷◌, ◌++◌, arith, ◌==◌,
  inl, inr, get_last?,
}
use dashfetchr.Base.Uuid.{Uuid}
use dashfetchr.Core.Errors.{ok, Result-cases}
use dashfetchr.Core.Custody.{Event}
use dashfetchr.Core.Custody.Hashing.{Digest}
use dashfetchr.Core.Custody.Ledger.{link, record_event}
use dashfetchr.Core.Custody.Recording.{has_event, record_event_ok, record_event_err}
use dashfetchr.Infra.Memory.CustodyRepo.{
  CustodyRepo, events_of, custody_repository, custody_repository-IsRepository,
}
use dashfetchr.App.Store.{Store}
use dashfetchr.App.Custodyapp.{RecordInput, Fresh, event_of, record_custody}
use dashfetchr.App.Custodyapp.Effects.{IsUnused, IsGrown, entered}

has_event-append :
    (id : Uuid) (es fs : List Event)
    → has_event id (es ++ fs) ≡ (has_event id es || has_event id fs)
unfolding has_event
has_event-append id [] fs = refl
has_event-append id (e ∷ es) fs = ground (arith, has_event-append id es fs)

link_id :
    (d : Digest) (event_id : Uuid) (e : Event) (o : Option Event) (h : List ℕ)
    → (record (link d event_id e o) { hash = h }).event_id ≡ event_id
unfolding link
link_id d event_id e none h = refl
link_id d event_id e (some p) h = refl

grown-IsUnused :
    (j : Uuid) (c k : CustodyRepo) (at : Uuid) (e : Event)
    → IsGrown c k at e
    → (e.event_id == j) ≡ false
    → IsUnused j c
    → IsUnused j k
unfolding has_event
grown-IsUnused j c k at e g ne u id =
    ground (arith, g id, u id, has_event-append j (events_of c id) (e ∷ []))

-- The ledger after `Record`: as it was, or as the ledger's own `Record` leaves it.
pub custody_after :
    (d : Digest) (f : Fresh) (i : RecordInput) (s : Store)
    → ((record_custody d f i s).0.custody ≡ s.custody)
      ⊎ ((record_custody d f i s).0.custody
          ≡ (record_event custody_repository d f.event_id (event_of f i) s.custody).0)
unfolding record_custody
custody_after d f i s = ground arith

module _ (d : Digest) (f : Fresh) (i : RecordInput) (s : Store)
    (fresh : IsUnused f.event_id s.custody) where
  entered_id :
      {e : Event}
      → (record_event custody_repository d f.event_id (event_of f i) s.custody).1 ≡ ok e
      → e.event_id ≡ f.event_id
  entered_id {e} h =
      let (v, c, same, grown) =
        record_event_ok custody_repository d events_of custody_repository-IsRepository f.event_id
          (event_of f i) s.custody fresh h in
      ap (λ (x : Event). x.event_id) same
      ∙ link_id d f.event_id (event_of f i) (get_last? (events_of s.custody i.delivery_id)) e.hash

  -- An identifier that was unused stays so, unless `Record` was given it.
  pub record_custody-IsUnused :
      (j : Uuid)
      → (f.event_id == j) ≡ false
      → IsUnused j s.custody
      → IsUnused j (record_custody d f i s).0.custody
  record_custody-IsUnused j ne u = elim (custody_after d f i s) [
    | inl h ↦ rw h u
    | inr h ↦
        rw h
          (elim (Result-cases
            (record_event custody_repository d f.event_id (event_of f i) s.custody).1) [
              | inr (x, l) ↦ λ id.
                  rw
                    (record_event_err custody_repository d events_of custody_repository-IsRepository
                      f.event_id (event_of f i) s.custody l id)
                    (u id)
              | inl (e, l) ↦
                  let (v, t, grown) = entered d f i s fresh l in
                  grown-IsUnused j s.custody _ i.delivery_id e grown
                    (ap (λ k. k == j) (entered_id l) ∙ ne) u
            ])
  ]
