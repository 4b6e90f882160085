-- ===== src/App/Custodyapp/Effects.antt =====
-- What `Record` of the custody service (internal/app/custodyapp/service.go) leaves behind, by what it
-- returns.
use dashfetchr.Base.{
  ℕ, false, Option, none, some, ◌≡◌, refl, ap, ◌∙◌, List, [], ◌∷◌, ◌++◌, arith, if◌then◌else◌, ◌==◌,
  Option-cases, inl, inr, get_last?,
}
use dashfetchr.Base.Uuid.{Uuid}
use dashfetchr.Core.Errors.{Error, Result, ok, err, Result-cases}
use dashfetchr.Core.Delivery.{Delivery}
use dashfetchr.Core.Custody.{Event, validate}
use dashfetchr.Core.Custody.Hashing.{Digest}
use dashfetchr.Core.Custody.Ledger.{link, record_event}
use dashfetchr.Core.Custody.Recording.{has_event, record_event_ok, record_event_err}
use dashfetchr.Infra.Memory.CustodyRepo.{
  CustodyRepo, events_of, custody_repository, custody_repository-IsRepository,
}
use dashfetchr.Infra.Memory.DeliveryRepo.{get_by_id, save}
use dashfetchr.App.Store.{Store}
use dashfetchr.App.Custodyapp.{
  RecordInput, Fresh, refused, recorded, event_of, apply_delivery_transition, record_custody,
}

-- No stored event has the identifier.
abbrev pub IsUnused : Uuid → CustodyRepo → Type 0
IsUnused event_id c = (id : Uuid) → has_event event_id (events_of c id) ≡ false

-- The events of one delivery have grown by one, and the others are as they were.
abbrev pub IsGrown : CustodyRepo → CustodyRepo → Uuid → Event → Type 0
IsGrown c k at e =
    (id : Uuid) → events_of k id ≡ (if at == id then events_of c id ++ e ∷ [] else events_of c id)

-- The ledger's own fields are not looked at.
validate-link :
    (d : Digest) (event_id : Uuid) (e : Event) (o : Option Event) (h : List ℕ)
    → (validate (record (link d event_id e o) { hash = h }) ≡ validate e)
      × ((record (link d event_id e o) { hash = h }).type ≡ e.type)
unfolding validate link
validate-link d event_id e none h = (refl, refl)
validate-link d event_id e (some p) h = (refl, refl)

module _ (d : Digest) (f : Fresh) (i : RecordInput) (s : Store)
    (fresh : IsUnused f.event_id s.custody) where
  abbrev ledger : CustodyRepo × Result Event
  ledger = record_event custody_repository d f.event_id (event_of f i) s.custody

  pub entered :
      {e : Event}
      → ledger.1 ≡ ok e
      → (validate e ≡ none) × (e.type ≡ i.type) × IsGrown s.custody ledger.0 i.delivery_id e
  entered {e} h =
      let (v, c, same, grown) =
        record_event_ok custody_repository d events_of custody_repository-IsRepository f.event_id
          (event_of f i) s.custody fresh h in
      let (vl, tl) =
        validate-link d f.event_id (event_of f i) (get_last? (events_of s.custody i.delivery_id))
          e.hash in
      (ap validate same ∙ vl ∙ v, ap (λ (x : Event). x.type) same ∙ tl, grown)

  -- The three runs after the delivery is found.
  module _ (del : Delivery) (g : get_by_id i.delivery_id s.deliveries ≡ ok del) where
    abbrev moved : Delivery × Option Error
    moved = apply_delivery_transition i.type f.at f.now del

    run_refused :
        {x : Error}
        → ledger.1 ≡ err x
        → record_custody d f i s ≡ (record s { custody = ledger.0 }, refused x)
    unfolding record_custody
    run_refused l = ground arith

    pub run_late :
        {e : Event} {x : Error}
        → ledger.1 ≡ ok e
        → moved.1 ≡ some x
        → record_custody d f i s ≡ (record s { custody = ledger.0 }, recorded e (some x))
    unfolding record_custody
    run_late l m = ground arith

    pub run_ok :
        {e : Event}
        → ledger.1 ≡ ok e
        → moved.1 ≡ none
        → record_custody d f i s ≡ (
          record s { custody = ledger.0; deliveries = save moved.0 s.deliveries },
          recorded e none,
        )
    unfolding record_custody
    run_ok l m = ground arith

  run_missing :
      {x : Error}
      → get_by_id i.delivery_id s.deliveries ≡ err x
      → record_custody d f i s ≡ (s, refused x)
  unfolding record_custody
  run_missing g = ground arith

  -- Where `Record`, given an identifier that no stored event has, returns no event, the stores hold
  -- what they held.
  pub record_custody_refused :
      {x : Error}
      → (record_custody d f i s).1 ≡ refused x
      → ((record_custody d f i s).0.deliveries ≡ s.deliveries)
        × ((id : Uuid) → events_of (record_custody d f i s).0.custody id ≡ events_of s.custody id)
  record_custody_refused h = elim (Result-cases (get_by_id i.delivery_id s.deliveries)) [
    | inr (y, g) ↦ rw (run_missing g) (refl, λ id. refl)
    | inl (del, g) ↦ elim (Result-cases ledger.1) [
      | inr (y, l) ↦ rw (run_refused del g l) (
        refl,
        record_event_err custody_repository d events_of custody_repository-IsRepository f.event_id
            (event_of f i) s.custody l,
      )
      | inl (e, l) ↦ elim (Option-cases (moved del g).1) [
        | inl m ↦ absurd (ground (arith, run_ok del g l m))
        | inr (y, m) ↦ absurd (ground (arith, run_late del g l m))
      ]
    ]
  ]

  -- Where it, given such an identifier, returns an event and no error, the event was valid and its transition allowed, the event
  -- is the last one of its delivery, and the delivery is saved as the transition left it.
  pub record_custody_ok :
      {e : Event}
      → (record_custody d f i s).1 ≡ recorded e none
      → (del : Delivery) × (k : Delivery) × (get_by_id i.delivery_id s.deliveries ≡ ok del)
        × (validate e ≡ none)
        × (e.type ≡ i.type)
        × (apply_delivery_transition i.type f.at f.now del ≡ (k, none))
        × ((record_custody d f i s).0.deliveries ≡ save k s.deliveries)
        × IsGrown s.custody (record_custody d f i s).0.custody i.delivery_id e
  record_custody_ok {e} h = elim (Result-cases (get_by_id i.delivery_id s.deliveries)) [
    | inr (y, g) ↦ absurd (ground (arith, run_missing g))
    | inl (del, g) ↦ elim (Result-cases ledger.1) [
      | inr (y, l) ↦ absurd (ground (arith, run_refused del g l))
      | inl (r, l) ↦ elim (Option-cases (moved del g).1) [
        | inr (y, m) ↦ absurd (ground (arith, run_late del g l m))
        | inl m ↦
            let same : r ≡ e = ground (arith, run_ok del g l m) in
            let (v, t, grown) = entered (l ∙ ap (λ x. ok x) same) in
            (
              del,
              (moved del g).0,
              g,
              v,
              t,
              ground arith,
              rw (run_ok del g l m) refl,
              rw (run_ok del g l m) grown,
            )
      ]
    ]
  ]

  -- Where it, given such an identifier, returns an event and an error, the transition was not allowed. The event stays in the
  -- ledger, and no delivery has changed.
  pub record_custody_late :
      {e : Event} {x : Error}
      → (record_custody d f i s).1 ≡ recorded e (some x)
      → (del : Delivery) × (get_by_id i.delivery_id s.deliveries ≡ ok del)
        × ((apply_delivery_transition i.type f.at f.now del).1 ≡ some x)
        × ((record_custody d f i s).0.deliveries ≡ s.deliveries)
        × IsGrown s.custody (record_custody d f i s).0.custody i.delivery_id e
  record_custody_late {e} {x} h = elim (Result-cases (get_by_id i.delivery_id s.deliveries)) [
    | inr (y, g) ↦ absurd (ground (arith, run_missing g))
    | inl (del, g) ↦ elim (Result-cases ledger.1) [
      | inr (y, l) ↦ absurd (ground (arith, run_refused del g l))
      | inl (r, l) ↦ elim (Option-cases (moved del g).1) [
        | inl m ↦ absurd (ground (arith, run_ok del g l m))
        | inr (y, m) ↦
            let same : r ≡ e = ground (arith, run_late del g l m) in
            let (v, t, grown) = entered (l ∙ ap (λ z. ok z) same) in
            (
              del,
              g,
              ground (arith, run_late del g l m),
              rw (run_late del g l m) refl,
              rw (run_late del g l m) grown,
            )
      ]
    ]
  ]
