-- ===== src/Core/Custody/Recording.antt =====
-- What `Record` (internal/core/custody/ledger.go) does over any repository that keeps the port's laws.
use dashfetchr.Base.{
  ==_iff, subst, ==_iff, ◌==◌, Bytes, Bool, false, ◌||◌, Option, none, some, ◌≡◌, refl, sym, ap,
  ◌∙◌, List, [], ◌∷◌, ◌++◌, arith, get_last?, Bool-cases, Option-cases, inl, inr, ◌⊎◌,
  if◌then◌else◌,
}
use dashfetchr.Base.Uuid.{Uuid}
use dashfetchr.Core.Errors.{Result-cases, Error, ok, err}
use dashfetchr.Core.Custody.{Event, validate}
use dashfetchr.Core.Custody.Hashing.{Digest, genesis_hash, compute_hash}
use dashfetchr.Core.Custody.Ledger.{Repository, link, record_event}
use dashfetchr.Core.Custody.Chain.{IsChain, compute_hash_of_hash, link-IsChain}

-- Whether an event of the list has the identifier.
unfoldable pub has_event : Uuid → List Event → Bool
has_event id [] = false
has_event id (e ∷ es) = e.event_id == id || has_event id es

-- The port's promises, over the events that a store holds for each delivery.
pub record IsRepository {S : Type 0} (repo : Repository S) (stored : S → Uuid → List Event)
    : Type 0 where
  pub last :
      (id : Uuid) (s : S) {o : Option Event}
      → repo.last_by_delivery id s ≡ ok o
      → o ≡ get_last? (stored s id)
  pub listed :
      (id : Uuid) (s : S) {es : List Event} → repo.list_by_delivery id s ≡ ok es → es ≡ stored s id
  pub appended :
      (e : Event) (s : S)
      → ((id : Uuid) → has_event e.event_id (stored s id) ≡ false)
      → (repo.append e s).1 ≡ none
      → (id : Uuid)
      → stored (repo.append e s).0 id
        ≡ (if e.delivery_id == id then stored s id ++ e ∷ [] else stored s id)
  pub refused :
      (e : Event) (s : S) {x : Error}
      → (repo.append e s).1 ≡ some x
      → (id : Uuid) → stored (repo.append e s).0 id ≡ stored s id

-- Every delivery's events are a chain.
abbrev pub IsIntact : {S : Type 0} → Digest → (S → Uuid → List Event) → S → Type 0
IsIntact d stored s = (id : Uuid) → IsChain d 0 (genesis_hash d) (stored s id)

pub link_ids :
    (d : Digest) (event_id : Uuid) (e : Event) (o : Option Event)
    → ((link d event_id e o).event_id ≡ event_id)
      × ((link d event_id e o).delivery_id ≡ e.delivery_id)
unfolding link
link_ids d event_id e none = (refl, refl)
link_ids d event_id e (some p) = (refl, refl)

module _ {S : Type 0} (repo : Repository S) (d : Digest) (stored : S → Uuid → List Event)
    (laws : IsRepository repo stored) where
  -- The successful run, step by step.
  record_steps :
      (event_id : Uuid) (e : Event) (s : S) {r : Event}
      → (record_event repo d event_id e s).1 ≡ ok r
      → (prev : Option Event) × (hash : Bytes) × (validate e ≡ none)
        × (repo.last_by_delivery e.delivery_id s ≡ ok prev)
        × (compute_hash d (link d event_id e prev) ≡ ok hash)
        × (r ≡ record (link d event_id e prev) { hash = hash })
        × ((repo.append r s).1 ≡ none)
        × ((record_event repo d event_id e s).0 ≡ (repo.append r s).0)
  unfolding record_event
  record_steps event_id e s h = elim (Option-cases (validate e)) [
    | inr (x, v) ↦ absurd (ground arith)
    | inl v ↦ elim (Result-cases (repo.last_by_delivery e.delivery_id s)) [
      | inr (x, l) ↦ absurd (ground arith)
      | inl (prev, l) ↦ elim (Result-cases (compute_hash d (link d event_id e prev))) [
        | inr (x, c) ↦ absurd (ground arith)
        | inl (hash, c) ↦ (prev, hash, v, l, c, ground arith, ground arith, ground arith)
      ]
    ]
  ]

  -- The failing run: the store is as it was, or the append was refused.
  record_failure :
      (event_id : Uuid) (e : Event) (s : S) {x : Error}
      → (record_event repo d event_id e s).1 ≡ err x
      → ((record_event repo d event_id e s).0 ≡ s)
        ⊎ ((r : Event) × (y : Error) × ((repo.append r s).1 ≡ some y)
            × ((record_event repo d event_id e s).0 ≡ (repo.append r s).0))
  unfolding record_event
  record_failure event_id e s h = elim (Option-cases (validate e)) [
    | inr (x, v) ↦ inl (ground arith)
    | inl v ↦ elim (Result-cases (repo.last_by_delivery e.delivery_id s)) [
      | inr (x, l) ↦ inl (ground arith)
      | inl (prev, l) ↦ elim (Result-cases (compute_hash d (link d event_id e prev))) [
        | inr (x, c) ↦ inl (ground arith)
        | inl (hash, c) ↦
            let r : Event = record (link d event_id e prev) { hash = hash } in
            elim (Option-cases (repo.append r s).1) [
              | inl a ↦ absurd (ground arith)
              | inr (y, a) ↦ inr (r, y, a, ground arith)
            ]
      ]
    ]
  ]

  -- Where `Record` fails, the events of every delivery stay as they were.
  pub record_event_err :
      (event_id : Uuid) (e : Event) (s : S) {x : Error}
      → (record_event repo d event_id e s).1 ≡ err x
      → (id : Uuid) → stored (record_event repo d event_id e s).0 id ≡ stored s id
  record_event_err event_id e s h id = elim (record_failure event_id e s h) [
    | inl same ↦ ap (λ t. stored t id) same
    | inr (r, y, a, same) ↦ ap (λ t. stored t id) same ∙ laws.refused r s a id
  ]

  -- Where `Record`, given an identifier that no stored event has, succeeds, the event was valid, and what it returns, with its number, its link and
  -- its hash, is what the store now holds at the end of its delivery's events. The events of the
  -- other deliveries stay.
  pub record_event_ok :
      (event_id : Uuid) (e : Event) (s : S) {r : Event}
      → ((id : Uuid) → has_event event_id (stored s id) ≡ false)
      → (record_event repo d event_id e s).1 ≡ ok r
      → (validate e ≡ none)
        × (compute_hash d r ≡ ok r.hash)
        × (r ≡ record (link d event_id e (get_last? (stored s e.delivery_id))) { hash = r.hash })
        × ((id : Uuid)
            → stored (record_event repo d event_id e s).0 id
              ≡ (if e.delivery_id == id then stored s id ++ r ∷ [] else stored s id))
  record_event_ok event_id e s {r} fresh h =
      let (prev, hash, v, l, c, r_eq, a, same) = record_steps event_id e s h in
      let tail = laws.last e.delivery_id s l in
      let hash_eq : r.hash ≡ hash = ap (λ (t : Event). t.hash) r_eq in
      let (own, place) = link_ids d event_id e prev in
      let id_eq : r.event_id ≡ event_id = ap (λ (t : Event). t.event_id) r_eq ∙ own in
      let place_eq : r.delivery_id ≡ e.delivery_id =
        ap (λ (t : Event). t.delivery_id) r_eq ∙ place in
      (
        v,
        ap (compute_hash d) r_eq
            ∙ compute_hash_of_hash d (link d event_id e prev) hash
            ∙ c
            ∙ ap (λ b. ok b) (sym hash_eq),
        r_eq ∙ (λ i. record (link d event_id e (tail i)) { hash = sym hash_eq i }),
        λ id.
            ap (λ t. stored t id) same
            ∙ laws.appended r s (λ j. ap (λ k. has_event k (stored s j)) id_eq ∙ fresh j) a id
            ∙ ap (λ k. if k == id then stored s id ++ r ∷ [] else stored s id) place_eq,
      )

  grown :
      (event_id : Uuid) (e r : Event) (s : S)
      → IsIntact d stored s
      → compute_hash d r ≡ ok r.hash
      → r ≡ record (link d event_id e (get_last? (stored s e.delivery_id))) { hash = r.hash }
      → IsChain d 0 (genesis_hash d) (stored s e.delivery_id ++ r ∷ [])
  grown event_id e r s intact c r_eq =
      let es = stored s e.delivery_id in
      let l = link d event_id e (get_last? es) in
      let h = sym (ap (compute_hash d) r_eq ∙ compute_hash_of_hash d l r.hash) ∙ c in
      subst (λ x. IsChain d 0 (genesis_hash d) (es ++ x ∷ [])) (sym r_eq)
        (link-IsChain d event_id e es r.hash (intact e.delivery_id) h)

  -- `Record`, given an identifier that no stored event has, keeps every delivery's events a chain,
  -- whether it succeeds or fails.
  pub record_event-IsIntact :
      (event_id : Uuid) (e : Event) (s : S)
      → ((id : Uuid) → has_event event_id (stored s id) ≡ false)
      → IsIntact d stored s
      → IsIntact d stored (record_event repo d event_id e s).0
  record_event-IsIntact event_id e s fresh intact id =
      elim (Result-cases (record_event repo d event_id e s).1) [
        | inr (x, h) ↦ rw (record_event_err event_id e s h id) (intact id)
        | inl (r, h) ↦
            let (v, c, r_eq, kept) = record_event_ok event_id e s fresh h in
            rw (kept id) (elim (Bool-cases (e.delivery_id == id)) [
              | inr ne ↦ rw ne (intact id)
              | inl here ↦ rw here (
                  subst (λ k. IsChain d 0 (genesis_hash d) (stored s k ++ r ∷ []))
                    ((==_iff e.delivery_id id).0 here) (grown event_id e r s intact c r_eq))
            ])
      ]
