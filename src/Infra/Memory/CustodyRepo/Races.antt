-- ===== src/Infra/Memory/CustodyRepo/Races.antt =====
-- About calls of the ledger's Record at once (internal/core/custody/ledger.go over internal/infra/memory/custody_repo.go):
-- the store is locked in each of its methods, and not from the reading of the tail to the append.
use dashfetchr.Base.{
  eq→bytes_eq, bytes_eq_refl, ℕ, suc, ◌+◌, ◌==◌, ==_iff, Bytes, false, some, ◌≡◌, refl, sym, subst,
  ap, ◌∙◌, List, [], ◌∷◌, ◌++◌, arith, length, get_last?, Option-cases, inl, inr,
}
use dashfetchr.Base.Int64.{pos, int64, eqb_ℤ, eqb_ℤ_iff}
use dashfetchr.Base.Uuid.{Uuid}
use dashfetchr.Core.Errors.{ok, chain_broken, Result-cases}
use dashfetchr.Core.Custody.{Event, validate}
use dashfetchr.Core.Custody.Hashing.{Digest, genesis_hash, compute_hash}
use dashfetchr.Core.Custody.Ledger.{
  link, prepare, commit, interleaved, record_event, verify, verify_from, Repository,
}
use dashfetchr.Core.Custody.Chain.{link_parts, IsChain, link-IsChain}
use dashfetchr.Core.Custody.Recording.{link_ids, has_event, IsIntact}
use dashfetchr.Infra.Memory.CustodyRepo.{
  CustodyRepo, events_of, append, last_by_delivery, list_by_delivery, custody_repository,
  append_succeeds, events_of-append,
}

-- One call alone: the two steps of Record, one after the other, are Record.
pub commit-prepare :
    {S : Type 0} (repo : Repository S) (d : Digest) (event_id : Uuid) (e : Event) (s : S)
    → commit repo d (prepare repo d event_id e s) s ≡ record_event repo d event_id e s
unfolding prepare commit record_event
commit-prepare repo d event_id e s = elim (Option-cases (validate e)) [
  | inr (x, v) ↦ ground arith
  | inl v ↦ elim (Result-cases (repo.last_by_delivery e.delivery_id s)) [
    | inr (x, l) ↦ ground arith
    | inl (prev, l) ↦ elim (Result-cases (compute_hash d (link d event_id e prev))) [
      | inr (x, c) ↦ ground arith
      | inl (hash, c) ↦ ground arith
    ]
  ]
]

-- The numbers of neighbours differ, also where they wrap.
int64-suc-ne : (n : ℕ) → eqb_ℤ (int64 (pos n)) (int64 (pos (suc n))) ≡ false
unfolding int64
int64-suc-ne n = ground arith

-- Verify of a chain and one more event whose number is not the next.
gap :
    (d : Digest) (i n : ℕ) (expected : Bytes) (es : List Event) (b : Event)
    → IsChain d i expected es
    → n ≡ i + length es
    → eqb_ℤ b.sequence_num (int64 (pos n)) ≡ false
    → verify_from d i expected (es ++ b ∷ []) ≡ some (chain_broken n "sequence gap")
unfolding verify_from
gap d i n expected [] b c at ne = let same : n ≡ i = omega arith in ground arith
gap d i n expected (e ∷ es) b (m, p, h, c) at ne =
    rw ((eqb_ℤ_iff e.sequence_num (int64 (pos i))).1 m) (
      rw (eq→bytes_eq e.prev_hash expected p, h, bytes_eq_refl e.hash)
        (gap d (suc i) n e.hash es b c (omega arith) ne))

-- What a call makes of the tail that it reads.
prepared :
    (d : Digest) (event_id : Uuid) (e : Event) (s : CustodyRepo) {r : Event}
    → prepare custody_repository d event_id e s ≡ ok r
    → (hash : Bytes) × (compute_hash d (link d event_id e (get_last? (events_of s e.delivery_id)))
        ≡ ok hash)
      × (r ≡ record (link d event_id e (get_last? (events_of s e.delivery_id))) { hash = hash })
unfolding prepare last_by_delivery
prepared d event_id e s h =
    elim (Result-cases
      (compute_hash d (link d event_id e (get_last? (events_of s e.delivery_id))))) [
        | inr (x, c) ↦ absurd (ground arith)
        | inl (hash, c) ↦ (hash, c, ground arith)
      ]

has_event-grown :
    (id : Uuid) (es : List Event) (r : Event)
    → has_event id es ≡ false
    → (r.event_id == id) ≡ false
    → has_event id (es ++ r ∷ []) ≡ false
unfolding has_event
has_event-grown id [] r h ne = ground arith
has_event-grown id (e ∷ es) r h ne = ground (arith, has_event-grown id es r)

length-grown : (es : List Event) (r : Event) → suc (length es) ≡ 0 + length (es ++ r ∷ [])
length-grown [] r = omega arith
length-grown (e ∷ es) r = let h = length-grown es r in omega arith

module _ (d : Digest) (i : Uuid) (e : Event) (s : CustodyRepo)
    (fresh : (id : Uuid) → has_event i (events_of s id) ≡ false) where
  would_append :
      {r : Event}
      → (record_event custody_repository d i e s).1 ≡ ok r
      → prepare custody_repository d i e s ≡ ok r
  unfolding commit
  would_append {r} h =
      let alone = commit-prepare custody_repository d i e s in
      elim (Result-cases (prepare custody_repository d i e s)) [
        | inr (x, p) ↦ absurd (ground arith)
        | inl (q, p) ↦ let kept = append_succeeds q s in ground arith
      ]

-- Two calls of Record for one delivery, each of which would succeed alone, that both read the tail before either
-- appends: both succeed, and Verify of the delivery then fails with a gap at the second event. Their
-- identifiers differ, and no stored event has them; the delivery's events were a chain.
pub verify-interleaved :
    (d : Digest) (i j : Uuid) (e f : Event) (s : CustodyRepo) {r q : Event}
    → IsIntact d events_of s
    → ((id : Uuid) → has_event i (events_of s id) ≡ false)
    → ((id : Uuid) → has_event j (events_of s id) ≡ false)
    → (i == j) ≡ false
    → f.delivery_id ≡ e.delivery_id
    → (record_event custody_repository d i e s).1 ≡ ok r
    → (record_event custody_repository d j f s).1 ≡ ok q
    → (t : CustodyRepo) × (interleaved custody_repository d i e j f s ≡ (t, ok r, ok q))
      × (verify custody_repository d e.delivery_id t
          ≡ some (chain_broken (suc (length (events_of s e.delivery_id))) "sequence gap"))
unfolding interleaved commit verify list_by_delivery
verify-interleaved d i j e f s {r} {q} intact fresh fresh2 differ place h k =
    let p = would_append d i e s fresh h in
    let p2 = would_append d j f s fresh2 k in
    let es = events_of s e.delivery_id in
    let (hash, c, same) = prepared d i e s p in
    let (hash2, c2, same2) = prepared d j f s p2 in
    let (own, at) = link_ids d i e (get_last? es) in
    let (own2, at2) = link_ids d j f (get_last? (events_of s f.delivery_id)) in
    let t = (append r s).0 in
    let u = (append q t).0 in
    let r_id : r.event_id ≡ i = ap (λ (x : Event). x.event_id) same ∙ own in
    let r_at : r.delivery_id ≡ e.delivery_id = ap (λ (x : Event). x.delivery_id) same ∙ at in
    let q_id : q.event_id ≡ j = ap (λ (x : Event). x.event_id) same2 ∙ own2 in
    let q_at : q.delivery_id ≡ e.delivery_id =
      ap (λ (x : Event). x.delivery_id) same2 ∙ at2 ∙ place in
    let held : events_of t e.delivery_id ≡ es ++ r ∷ [] =
      events_of-append r s e.delivery_id
        (ap (λ k. has_event k (events_of s r.delivery_id)) r_id ∙ fresh r.delivery_id)
      ∙ (rw ((==_iff r.delivery_id e.delivery_id).1 r_at) refl) in
    let fresh_q : has_event q.event_id (events_of t q.delivery_id) ≡ false =
      ap (λ k. has_event k (events_of t q.delivery_id)) q_id
      ∙ ap (λ k. has_event j (events_of t k)) q_at
      ∙ ap (has_event j) held
      ∙ has_event-grown j es r (fresh2 e.delivery_id) (ap (λ k. k == j) r_id ∙ differ) in
    let held2 : events_of u e.delivery_id ≡ (es ++ r ∷ []) ++ q ∷ [] =
      events_of-append q t e.delivery_id fresh_q
      ∙ (rw ((==_iff q.delivery_id e.delivery_id).1 q_at) refl)
      ∙ ap (λ x. x ++ q ∷ []) held in
    let chain : IsChain d 0 (genesis_hash d) (es ++ r ∷ []) =
      subst (λ x. IsChain d 0 (genesis_hash d) (es ++ x ∷ [])) (sym same)
        (link-IsChain d i e es hash (intact e.delivery_id) c) in
    let number : q.sequence_num ≡ int64 (pos (length es)) =
      ap (λ (x : Event). x.sequence_num) same2
      ∙ ap (λ k. (link d j f (get_last? (events_of s k))).sequence_num) place
      ∙ (link_parts d j f es (intact e.delivery_id)).0
      ∙ ap (λ n. int64 (pos n)) (omega arith) in
    (
      u,
      let a = append_succeeds r s in let b = append_succeeds q t in ground arith,
      ap (λ x. verify_from d 0 (genesis_hash d) x) held2
          ∙ gap d 0 (suc (length es)) (genesis_hash d) (es ++ r ∷ []) q chain (length-grown es r)
              (ap (λ x. eqb_ℤ x (int64 (pos (suc (length es))))) number ∙ int64-suc-ne (length es)),
    )
