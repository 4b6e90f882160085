-- ===== src/Core/Custody/Tampering.antt =====
-- About two lists of events that `Verify` (internal/core/custody/ledger.go) both accepts, over any digest
-- whose hexadecimal text lacks the delimiter.
use dashfetchr.Base.{
  subst, ℕ, suc, Bytes, bytes_eq, bytes_eq_refl, bytes_eq→eq, none, ◌≡◌, ◌≢◌, refl, sym, ap, ◌∙◌,
  List, [], ◌∷◌, arith, length, All, Bool-cases, inl, inr, ◌⊎◌,
}
use dashfetchr.Core.Errors.{ok, Result-cases}
use dashfetchr.Core.Custody.{Event}
use dashfetchr.Core.Custody.Hashing.{Digest, payload, delimiter, genesis_hash, compute_hash}
use dashfetchr.Core.Custody.Ledger.{verify_from}
use dashfetchr.Core.Custody.Chain.{IsChain, tail_hash, verify_from_iff}

-- Two inputs with one digest.
pub record Collision (d : Digest) : Type 0 where
  pub left : Bytes
  pub right : Bytes
  pub differ : left ≢ right
  pub collide : d.sha256_hex left ≡ d.sha256_hex right

-- A digest in hexadecimal does not contain the delimiter.
abbrev pub IsHex : Digest → Type 0
IsHex d = (input : Bytes) → All (λ c. c ≢ 0x1f) (d.sha256_hex input)

-- The same events in the same order, as far as `computeHash` and `Verify` read them.
abbrev pub SameContents : Digest → List Event → List Event → Type 0
SameContents d [] [] = Unit
SameContents d (e ∷ es) (f ∷ fs) =
    (e.sequence_num ≡ f.sequence_num)
    × (d.marshal (payload e) ≡ d.marshal (payload f))
    × (e.prev_hash ≡ f.prev_hash)
    × (e.hash ≡ f.hash)
    × SameContents d es fs
SameContents d _ _ = ⊥

-- The text before the first delimiter is determined.
delimiter-injective :
    (x y b c : Bytes)
    → All (λ k. k ≢ 0x1f) x
    → All (λ k. k ≢ 0x1f) y
    → delimiter x b ≡ delimiter y c
    → (x ≡ y) × (b ≡ c)
delimiter-injective [] [] b c hx hy h = (refl, cc)
delimiter-injective [] (k ∷ y) b c hx hy h = absurd (hy.0 (cc))
delimiter-injective (k ∷ x) [] b c hx hy h = absurd (hx.0 (cc))
delimiter-injective (k ∷ x) (l ∷ y) b c hx hy h =
    let (p, q) = delimiter-injective x y b c hx.1 hy.1 (cc) in (cc, q)

module _ (d : Digest) (hex : IsHex d) where
  -- The hash of an event is a digest of what it links to and of its contents.
  hashed :
      (e : Event)
      → compute_hash d e ≡ ok e.hash
      → (body : Bytes) × (d.marshal (payload e) ≡ ok body)
        × (e.hash ≡ d.sha256_hex (delimiter e.prev_hash body))
  unfolding compute_hash
  hashed e h = elim (Result-cases (d.marshal (payload e))) [
    | inl (body, m) ↦ (body, m, ground arith)
    | inr (x, m) ↦ absurd (ground arith)
  ]

  -- One hash of two events: the same contents, or a collision.
  same_hash :
      (e f : Event)
      → All (λ k. k ≢ 0x1f) e.prev_hash
      → All (λ k. k ≢ 0x1f) f.prev_hash
      → compute_hash d e ≡ ok e.hash
      → compute_hash d f ≡ ok f.hash
      → e.hash ≡ f.hash
      → Collision d
        ⊎ ((e.prev_hash ≡ f.prev_hash) × (d.marshal (payload e) ≡ d.marshal (payload f)))
  same_hash e f he hf ce cf h =
      let (b, mb, pb) = hashed e ce in
      let (c, mc, pc) = hashed f cf in
      let x = delimiter e.prev_hash b in
      let y = delimiter f.prev_hash c in
      elim (Bool-cases (bytes_eq x y)) [
        | inl s ↦
            let (p, q) =
              delimiter-injective e.prev_hash f.prev_hash b c he hf (bytes_eq→eq x y s) in
            inr (p, mb ∙ ap (λ t. ok t) q ∙ sym mc)
        | inr n ↦ inl (record {
          left = x;
          right = y;
          differ = λ s. cc (s, bytes_eq_refl y, n);
          collide = sym pb ∙ h ∙ pc;
        })
      ]

  is_hex : (e : Event) → compute_hash d e ≡ ok e.hash → All (λ k. k ≢ 0x1f) e.hash
  is_hex e c =
      let (b, m, p) = hashed e c in
      subst (All (λ k. k ≢ 0x1f)) (sym p) (hex (delimiter e.prev_hash b))

  chains :
      (i : ℕ) (x y : Bytes) (es fs : List Event)
      → All (λ k. k ≢ 0x1f) x
      → All (λ k. k ≢ 0x1f) y
      → IsChain d i x es
      → IsChain d i y fs
      → length es ≡ length fs
      → tail_hash x es ≡ tail_hash y fs
      → Collision d ⊎ ((x ≡ y) × SameContents d es fs)
  chains i x y [] [] hx hy ce cf l t = inr (t, tt)
  chains i x y [] (f ∷ fs) hx hy ce cf l t = absurd (omega arith)
  chains i x y (e ∷ es) [] hx hy ce cf l t = absurd (omega arith)
  chains i x y (e ∷ es) (f ∷ fs) hx hy (ne, pe, ce, re) (nf, pf, cf, rf) l t =
      elim (chains (suc i) e.hash f.hash es fs (is_hex e ce) (is_hex f cf) re rf (omega arith) t) [
        | inl k ↦ inl k
        | inr (h, rest) ↦
            elim (same_hash e f (subst (All (λ k. k ≢ 0x1f)) (sym pe) hx)
              (subst (All (λ k. k ≢ 0x1f)) (sym pf) hy) ce cf h) [
                | inl k ↦ inl k
                | inr (p, m) ↦ inr (sym pe ∙ p ∙ pf, (ne ∙ sym nf, m, p, h, rest))
              ]
      ]

  -- Two histories of one delivery that both pass `Verify`, are equally long and end in the same hash
  -- agree in every number, link, hash and marshalled payload, or they show two inputs that collide.
  pub verify_tamper_evident :
      (es fs : List Event)
      → verify_from d 0 (genesis_hash d) es ≡ none
      → verify_from d 0 (genesis_hash d) fs ≡ none
      → length es ≡ length fs
      → tail_hash (genesis_hash d) es ≡ tail_hash (genesis_hash d) fs
      → Collision d ⊎ SameContents d es fs
  verify_tamper_evident es fs ve vf l t =
      let g = genesis_hash d in
      let hg : All (λ k. k ≢ 0x1f) g = unfold genesis_hash in hex _ in
      elim (chains 0 g g es fs hg hg ((verify_from_iff d 0 g es).0 ve)
        ((verify_from_iff d 0 g fs).0 vf) l t) [ inl k ↦ inl k | inr (_, s) ↦ inr s ]
