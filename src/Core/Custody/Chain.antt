-- ===== src/Core/Custody/Chain.antt =====
-- What `Verify` (internal/core/custody/ledger.go) accepts: the chains.
use dashfetchr.Base.{
  Option-cases, eq→bytes_eq, ℕ, suc, ◌+◌, Bytes, bytes_eq_refl, bytes_eq→eq, none, some, ◌≡◌, refl,
  ap, ◌∙◌, ◌↔◌, List, [], ◌∷◌, ◌++◌, arith, length, get_last?, inl, inr,
}
use dashfetchr.Base.Int64.{pos, int64, ◌+ℤ◌, int64-suc, eqb_ℤ_iff}
use dashfetchr.Core.Errors.{Result-cases, ok}
use dashfetchr.Core.Custody.{Event}
use dashfetchr.Core.Custody.Hashing.{Digest, genesis_hash, compute_hash}
use dashfetchr.Core.Custody.Ledger.{link, verify_from}

-- The events from index `i` on, after an event whose hash is `expected`: the numbers count up, each
-- event carries the hash of the one before, and its own hash is that of its contents.
abbrev pub IsChain : Digest → ℕ → Bytes → List Event → Type 0
IsChain d i expected [] = Unit
IsChain d i expected (e ∷ es) =
    (e.sequence_num ≡ int64 (pos i))
    × (e.prev_hash ≡ expected)
    × (compute_hash d e ≡ ok e.hash)
    × IsChain d (suc i) e.hash es

module _ (d : Digest) where
  sound_at :
      (i : ℕ) (expected : Bytes) (e : Event) (es : List Event)
      → verify_from d i expected (e ∷ es) ≡ none
      → (e.sequence_num ≡ int64 (pos i))
        × (e.prev_hash ≡ expected)
        × (compute_hash d e ≡ ok e.hash)
        × (verify_from d (suc i) e.hash es ≡ none)
  unfolding verify_from
  sound_at i expected e es h = elim (Result-cases (compute_hash d e)) [
    | inl (actual, c) ↦ ground (
      arith,
      c,
      eqb_ℤ_iff e.sequence_num (int64 (pos i)),
      bytes_eq→eq e.prev_hash expected,
      bytes_eq→eq actual e.hash,
    )
    | inr (x, c) ↦ ground arith
  ]

  sound :
      (i : ℕ) (expected : Bytes) (es : List Event)
      → verify_from d i expected es ≡ none
      → IsChain d i expected es
  sound i expected [] h = tt
  sound i expected (e ∷ es) h =
      let (a, b, c, r) = sound_at i expected e es h in (a, b, c, sound (suc i) e.hash es r)

  complete :
      (i : ℕ) (expected : Bytes) (es : List Event)
      → IsChain d i expected es
      → verify_from d i expected es ≡ none
  unfolding verify_from
  complete i expected [] h = refl
  complete i expected (e ∷ es) (a, b, c, r) = rw ((eqb_ℤ_iff e.sequence_num (int64 (pos i))).1 a) (
      rw (eq→bytes_eq e.prev_hash expected b, c, bytes_eq_refl e.hash)
        (complete (suc i) e.hash es r))

  -- `Verify` accepts a list of events exactly if it is a chain.
  pub verify_from_iff :
      (i : ℕ) (expected : Bytes) (es : List Event)
      → (verify_from d i expected es ≡ none) ↔ IsChain d i expected es
  verify_from_iff i expected es = (sound i expected es, complete i expected es)

-- The hash that the next event links to.
abbrev pub tail_hash : Bytes → List Event → Bytes
tail_hash expected [] = expected
tail_hash expected (e ∷ es) = tail_hash e.hash es

-- A chain goes on with an event that has the next number, the tail's hash, and its own hash.
pub IsChain-append :
    (d : Digest) (i : ℕ) (expected : Bytes) (es : List Event) (e : Event)
    → IsChain d i expected es
    → e.sequence_num ≡ int64 (pos (i + length es))
    → e.prev_hash ≡ tail_hash expected es
    → compute_hash d e ≡ ok e.hash
    → IsChain d i expected (es ++ e ∷ [])
IsChain-append d i expected [] e c n p h = (n ∙ ap (λ k. int64 (pos k)) (omega arith), p, h, tt)
IsChain-append d i expected (f ∷ es) e (a, b, g, c) n p h = (
  a,
  b,
  g,
  IsChain-append d (suc i) f.hash es e c (n ∙ ap (λ k. int64 (pos k)) (omega arith)) p h,
)

-- The last event of a chain has the last number and the tail's hash.
IsChain-get_last? :
    (d : Digest) (i : ℕ) (expected : Bytes) (es : List Event) {p : Event}
    → IsChain d i expected es
    → get_last? es ≡ some p
    → (int64 (p.sequence_num +ℤ pos 1) ≡ int64 (pos (i + length es)))
      × (p.hash ≡ tail_hash expected es)
IsChain-get_last? d i expected [] c h = cc
IsChain-get_last? d i expected (e ∷ []) {p} c h =
    let same : p ≡ e = cc in
    rw same
      (ap (λ n. int64 (n +ℤ pos 1)) c.0 ∙ int64-suc i ∙ ap (λ k. int64 (pos k)) (omega arith), refl)
IsChain-get_last? d i expected (e ∷ f ∷ es) (a, b, g, c) h =
    let (n, q) = IsChain-get_last? d (suc i) e.hash (f ∷ es) c h in
    (n ∙ ap (λ k. int64 (pos k)) (omega arith), q)

get_last?-none : (es : List Event) → get_last? es ≡ none → es ≡ []
get_last?-none [] h = refl
get_last?-none (e ∷ []) h = cc
get_last?-none (e ∷ f ∷ es) h = cc (get_last?-none (f ∷ es) h)

pub compute_hash_of_hash :
    (d : Digest) (e : Event) (hash : Bytes)
    → compute_hash d (record e { hash = hash }) ≡ compute_hash d e
unfolding compute_hash
compute_hash_of_hash d e hash = refl

pub link_parts :
    (d : Digest) (event_id : ℕ) (e : Event) (es : List Event)
    → IsChain d 0 (genesis_hash d) es
    → ((link d event_id e (get_last? es)).sequence_num ≡ int64 (pos (0 + length es)))
      × ((link d event_id e (get_last? es)).prev_hash ≡ tail_hash (genesis_hash d) es)
unfolding link int64
link_parts d event_id e es c = elim (Option-cases (get_last? es)) [
  | inl h ↦ rw h (rw (get_last?-none es h) (refl, refl))
  | inr (p, h) ↦ rw h (IsChain-get_last? d 0 (genesis_hash d) es c h)
]

-- What `Record` makes of an event continues the chain that it is linked to.
pub link-IsChain :
    (d : Digest) (event_id : ℕ) (e : Event) (es : List Event) (hash : Bytes)
    → IsChain d 0 (genesis_hash d) es
    → compute_hash d (link d event_id e (get_last? es)) ≡ ok hash
    → IsChain d 0
        (genesis_hash d)
        (es ++ record (link d event_id e (get_last? es)) { hash = hash } ∷ [])
link-IsChain d event_id e es hash c h =
    let l = link d event_id e (get_last? es) in
    let (n, p) = link_parts d event_id e es c in
    IsChain-append d 0 (genesis_hash d) es (record l { hash = hash }) c n p
      (compute_hash_of_hash d l hash ∙ h)
