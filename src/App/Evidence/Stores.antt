-- ===== src/App/Evidence/Stores.antt =====
-- The evidence of all stored deliveries, and `Record` of the custody service
-- (internal/app/custodyapp/service.go).
use dashfetchr.Base.{
  none, some, ◌≡◌, refl, sym, ◌∙◌, subst, [], ◌∷◌, ◌++◌, arith, ◌==◌, ==_iff, Bool-cases, inl, inr,
}
use dashfetchr.Base.Uuid.{Uuid}
use dashfetchr.Base.Maps.{lookup, nat_eq}
use dashfetchr.Base.Entries.{IsMap, insert-IsMap}
use dashfetchr.Core.Errors.{ok}
use dashfetchr.Core.Delivery.{Delivery, transition, mark_picked_up, mark_delivered, mark_failed}
use dashfetchr.Base.Time.{Time}
use dashfetchr.Core.Custody.{Event, EventType}
use dashfetchr.Core.Custody.Hashing.{Digest}
use dashfetchr.Infra.Memory.CustodyRepo.{CustodyRepo, events_of}
use dashfetchr.Infra.Memory.DeliveryRepo.{DeliveryRepo, get_by_id, save}
use dashfetchr.Infra.Memory.DeliveryRepo.Index.{by_id-save}
use dashfetchr.App.Store.{Store, new_store}
use dashfetchr.App.Custodyapp.{
  RecordInput, Fresh, recorded, record_custody, Outcome-cases, apply_delivery_transition,
}
use dashfetchr.App.Custodyapp.Effects.{
  IsUnused, IsGrown, record_custody_refused, record_custody_ok, record_custody_late,
}
use dashfetchr.App.Evidence.{IsEvidenced, append-IsEvidenced, apply-IsEvidenced}

-- Every delivery stands under its identifier, with the evidence of its state in its ledger.
pub record IsCovered (r : DeliveryRepo) (c : CustodyRepo) : Type 0 where
  pub entries : IsMap r.by_id
  pub named : (id : Uuid) (del : Delivery) → lookup id r.by_id ≡ some del → del.id ≡ id
  pub evidence :
      (id : Uuid) (del : Delivery) → lookup id r.by_id ≡ some del → IsEvidenced del (events_of c id)

pub new-IsCovered : IsCovered new_store.deliveries new_store.custody
unfolding lookup
new-IsCovered = record {
  entries = tt;
  named = λ id del h. absurd (ground arith);
  evidence = λ id del h. absurd (ground arith);
}

-- A write of a delivery that has its evidence.
pub save-IsCovered :
    (k : Delivery) (at : Uuid) (r : DeliveryRepo) (c : CustodyRepo)
    → k.id ≡ at
    → IsEvidenced k (events_of c at)
    → IsCovered r c
    → IsCovered (save k r) c
save-IsCovered k at r c own e v = record {
  entries = unfold save in insert-IsMap k.id k r.by_id v.entries;
  named = λ id del h. ground (arith, by_id-save k r id, v.named id del);
  evidence = λ id del h. elim (Bool-cases (k.id == id)) [
    | inl t ↦
        let here : at ≡ id = sym own ∙ (==_iff k.id id).0 t in
        let same : k ≡ del = ground (arith, by_id-save k r id) in
        subst (λ x. IsEvidenced x (events_of c id)) same
          (subst (λ j. IsEvidenced k (events_of c j)) here e)
    | inr f ↦ v.evidence id del (ground (arith, by_id-save k r id))
  ];
}

-- One more event.
pub grown-IsCovered :
    (r : DeliveryRepo) (c k : CustodyRepo) (at : Uuid) (e : Event)
    → IsGrown c k at e
    → IsCovered r c
    → IsCovered r k
grown-IsCovered r c k at e g v = record {
  entries = v.entries;
  named = v.named;
  evidence = λ id del h. elim (Bool-cases (at == id)) [
    | inl t ↦
        rw (g id) (rw t (append-IsEvidenced del (events_of c id) (e ∷ []) (v.evidence id del h)))
    | inr f ↦ rw (g id) (rw f (v.evidence id del h))
  ];
}

same-IsCovered :
    (r : DeliveryRepo) (c k : CustodyRepo)
    → ((id : Uuid) → events_of k id ≡ events_of c id)
    → IsCovered r c
    → IsCovered r k
same-IsCovered r c k g v = record {
  entries = v.entries;
  named = v.named;
  evidence = λ id del h. rw (g id) (v.evidence id del h);
}

pub found :
    (id : Uuid) (r : DeliveryRepo) {del : Delivery}
    → get_by_id id r ≡ ok del
    → lookup id r.by_id ≡ some del
unfolding get_by_id
found id r h = ground arith

apply_id :
    (t : EventType) (at now : Time) (del : Delivery) {k : Delivery}
    → apply_delivery_transition t at now del ≡ (k, none)
    → k.id ≡ del.id
unfolding apply_delivery_transition transition mark_picked_up mark_delivered mark_failed
apply_id t at now del h = ground arith

module _ (d : Digest) (f : Fresh) (i : RecordInput) (s : Store)
    (fresh : IsUnused f.event_id s.custody) (v : IsCovered s.deliveries s.custody) where
  accepted-IsCovered :
      {e : Event}
      → (record_custody d f i s).1 ≡ recorded e none
      → IsCovered (record_custody d f i s).0.deliveries (record_custody d f i s).0.custody
  accepted-IsCovered {e} h =
      let (del, k, g, valid, type, step, saved, grown) = record_custody_ok d f i s fresh h in
      let c = (record_custody d f i s).0.custody in
      let es = events_of s.custody i.delivery_id in
      let there = found i.delivery_id s.deliveries g in
      let id : k.id ≡ i.delivery_id =
        apply_id i.type f.at f.now del step ∙ v.named i.delivery_id del there in
      let held : IsEvidenced k (es ++ e ∷ []) =
        apply-IsEvidenced f.at f.now e del k es valid (v.evidence i.delivery_id del there)
          (rw type step) in
      let own : events_of c i.delivery_id ≡ es ++ e ∷ [] =
        grown i.delivery_id ∙ (rw ((==_iff i.delivery_id i.delivery_id).1 refl)) in
      rw saved (
        save-IsCovered k i.delivery_id s.deliveries c id (rw own held)
          (grown-IsCovered s.deliveries s.custody c i.delivery_id e grown v))

  -- `Record`, whatever it returns, keeps every delivery's state covered by the evidence in its ledger.
  pub record_custody-IsCovered :
      IsCovered (record_custody d f i s).0.deliveries (record_custody d f i s).0.custody
  record_custody-IsCovered = elim (Outcome-cases (record_custody d f i s).1) [
    | inl (x, h) ↦
        let (dels, evs) = record_custody_refused d f i s fresh h in
        rw dels (same-IsCovered s.deliveries s.custody (record_custody d f i s).0.custody evs v)
    | inr (e, inl h) ↦ accepted-IsCovered h
    | inr (e, inr (x, h)) ↦
        let (del, g, x_eq, dels, grown) = record_custody_late d f i s fresh h in
        rw dels (
          grown-IsCovered s.deliveries s.custody (record_custody d f i s).0.custody i.delivery_id e
            grown v)
  ]
