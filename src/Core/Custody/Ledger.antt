-- ===== src/Core/Custody/Ledger.antt =====
-- internal/core/custody/ledger.go: the persistence port and the ledger. A repository acts on a store of
-- type `S`; the identifier that `uuid.New()` gives is an argument. `record_event` is Record with no other call
-- in between; `prepare` and `commit` are its two halves.
use dashfetchr.Base.{ℕ, suc, Bytes, bytes_eq, not, Option, none, some, List, [], ◌∷◌, if◌then◌else◌}
use dashfetchr.Base.Int64.{pos, ◌+ℤ◌, int64, eqb_ℤ}
use dashfetchr.Base.Uuid.{Uuid}
use dashfetchr.Core.Errors.{
  Error, chain_broken, tampered, wrapped, Result, ok, err, ◌>>=◌, ◌>>◌, check, wrap,
}
use dashfetchr.Core.Custody.{Event, validate}
use dashfetchr.Core.Custody.Hashing.{Digest, genesis_hash, compute_hash}

pub record Repository (S : Type 0) : Type 0 where
  pub append : Event → S → S × Option Error
  pub last_by_delivery : Uuid → S → Result (Option Event)
  pub list_by_delivery : Uuid → S → Result (List Event)

-- Sequence number and previous hash, from the tail of the delivery's chain.
unfoldable pub link : Digest → Uuid → Event → Option Event → Event
link d event_id e none = record e {
  event_id = event_id;
  sequence_num = pos 0;
  prev_hash = genesis_hash d;
}
link d event_id e (some prev) = record e {
  event_id = event_id;
  sequence_num = int64 (prev.sequence_num +ℤ pos 1);
  prev_hash = prev.hash;
}

module _ {S : Type 0} (repo : Repository S) (d : Digest) where
  append_linked : Event → S × Option Error → S × Result Event
  append_linked e (s, none) = (s, ok e)
  append_linked e (s, some x) = (s, err (wrapped "custody: append" x))

  record_hashed : Event → Result Bytes → S → S × Result Event
  unfolding append_linked
  record_hashed e (err x) s = (s, err x)
  record_hashed e (ok hash) s =
      append_linked (record e { hash = hash }) (repo.append (record e { hash = hash }) s)

  record_after : Uuid → Event → Result (Option Event) → S → S × Result Event
  unfolding record_hashed
  record_after event_id e (err x) s = (s, err (wrapped "custody: read tail" x))
  record_after event_id e (ok prev) s =
      record_hashed (link d event_id e prev) (compute_hash d (link d event_id e prev)) s

  record_valid : Option Error → Uuid → Event → S → S × Result Event
  unfolding record_after
  record_valid (some x) event_id e s = (s, err x)
  record_valid none event_id e s = record_after event_id e (repo.last_by_delivery e.delivery_id s) s

  -- Ledger.Record
  unfoldable pub record_event : Uuid → Event → S → S × Result Event
  unfolding record_valid
  record_event event_id e s = record_valid (validate e) event_id e s

  -- Record in the two steps that other calls can come between: what it makes of the tail that it reads, and the
  -- append.
  unfoldable pub prepare : Uuid → Event → S → Result Event
  prepare event_id e s = do
    check (validate e)
    prev ← wrap "custody: read tail" (repo.last_by_delivery e.delivery_id s)
    hash ← compute_hash d (link d event_id e prev)
    ok (record (link d event_id e prev) { hash = hash })

  unfoldable pub commit : Result Event → S → S × Result Event
  unfolding append_linked
  commit (err x) s = (s, err x)
  commit (ok r) s = append_linked r (repo.append r s)

  -- Two calls at once: both read the tail, and then both append.
  unfoldable pub interleaved : Uuid → Event → Uuid → Event → S → S × Result Event × Result Event
  unfolding prepare commit
  interleaved i e j f s =
      let (t, a) = commit (prepare i e s) s in let (u, b) = commit (prepare j f s) t in (u, a, b)

-- The loop of `Verify`, at index `i`.
unfoldable pub verify_from : Digest → ℕ → Bytes → List Event → Option Error
verify_from d i expected [] = none
verify_from d i expected (e ∷ es) =
    if not (eqb_ℤ e.sequence_num (int64 (pos i)))
    then some (chain_broken i "sequence gap")
    else if not (bytes_eq e.prev_hash expected)
    then some (chain_broken i "prev_hash mismatch")
    else elim (compute_hash d e) [
      | err x ↦ some x
      | ok actual ↦
          if not (bytes_eq actual e.hash)
          then some (tampered i e.event_id)
          else verify_from d (suc i) e.hash es
    ]

module _ {S : Type 0} (repo : Repository S) (d : Digest) where
  -- Ledger.List
  unfoldable pub list : Uuid → S → Result (List Event)
  list delivery_id s = repo.list_by_delivery delivery_id s

  -- Ledger.Verify
  unfoldable pub verify : Uuid → S → Option Error
  unfolding verify_from
  verify delivery_id s = elim (repo.list_by_delivery delivery_id s) [
    | err x ↦ some x
    | ok events ↦ verify_from d 0 (genesis_hash d) events
  ]
