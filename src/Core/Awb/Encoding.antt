-- ===== src/Core/Awb/Encoding.antt =====
-- About the text of the internal identifier (internal/core/awb, generateInternalAWB).
use dashfetchr.Base.{
  Bytes, ℕ, zero, suc, ◌+◌, ◌/◌, ◌%◌, ◌<◌, ◌≡◌, refl, sym, ap, ◌∙◌, [], ◌∷◌, ◌++◌, arith,
  Bool-cases, ltb, inl, inr, length, length-append, append_assoc, append_split,
}
use dashfetchr.Base.Time.{Time, year}
use dashfetchr.Core.Errors.{ok}
use dashfetchr.Core.Awb.Internal.{
  Entropy, base32_digit, base32_digits, entropy_number, encode_entropy, decimal,
  generate_internal_awb,
}

-- Each of the five is a byte.
pub record IsBytes (e : Entropy) : Type 0 where
  pub b0 : e.b0 < 256
  pub b1 : e.b1 < 256
  pub b2 : e.b2 < 256
  pub b3 : e.b3 < 256
  pub b4 : e.b4 < 256

base32_digit-injective : (m n : ℕ) → m < 32 → n < 32 → base32_digit m ≡ base32_digit n → m ≡ n
unfolding base32_digit
base32_digit-injective m n hm hn h = ground arith

base32_digits-append :
    (k n : ℕ) (rest : Bytes) → base32_digits k n rest ≡ base32_digits k n [] ++ rest
unfolding base32_digits
base32_digits-append zero n rest = refl
base32_digits-append (suc k) n rest =
    base32_digits-append k (n / 32) (base32_digit (n % 32) ∷ rest)
    ∙ sym (append_assoc (base32_digits k (n / 32) []) (base32_digit (n % 32) ∷ []) rest)
    ∙ ap (λ xs. xs ++ rest) (sym (base32_digits-append k (n / 32) (base32_digit (n % 32) ∷ [])))

length-base32_digits : (k n : ℕ) → length (base32_digits k n []) ≡ k
unfolding base32_digits
length-base32_digits zero n = refl
length-base32_digits (suc k) n = rw (base32_digits-append k (n / 32) (base32_digit (n % 32) ∷ [])) (
    omega (
      arith,
      length-append (base32_digits k (n / 32) []) (base32_digit (n % 32) ∷ []),
      length-base32_digits k (n / 32),
    ))

last_digit :
    (k n : ℕ)
    → base32_digits (suc k) n [] ≡ base32_digits k (n / 32) [] ++ base32_digit (n % 32) ∷ []
unfolding base32_digits
last_digit k n = base32_digits-append k (n / 32) (base32_digit (n % 32) ∷ [])

-- `n` has at most `k` digits.
abbrev IsBelow : ℕ → ℕ → Type 0
IsBelow zero n = n ≡ 0
IsBelow (suc k) n = IsBelow k (n / 32)

base32_digits-injective :
    (k m n : ℕ) → IsBelow k m → IsBelow k n → base32_digits k m [] ≡ base32_digits k n [] → m ≡ n
base32_digits-injective zero m n hm hn h = hm ∙ sym hn
base32_digits-injective (suc k) m n hm hn h =
    let (front, back) =
      append_split (base32_digits k (m / 32) []) (base32_digits k (n / 32) [])
        (base32_digit (m % 32) ∷ []) (base32_digit (n % 32) ∷ []) refl
        (sym (last_digit k m) ∙ h ∙ last_digit k n) in
    let high = base32_digits-injective k (m / 32) (n / 32) hm hn front in
    let same : base32_digit (m % 32) ≡ base32_digit (n % 32) = cc in
    let low = base32_digit-injective (m % 32) (n % 32) (omega arith) (omega arith) same in
    omega arith

entropy_number-injective :
    (e f : Entropy) → IsBytes e → IsBytes f → entropy_number e ≡ entropy_number f → e ≡ f
unfolding entropy_number
entropy_number-injective e f he hf h = ground arith

entropy_number-IsBelow : (e : Entropy) → IsBytes e → IsBelow 8 (entropy_number e)
unfolding entropy_number
entropy_number-IsBelow e h = omega arith

encode_entropy-injective :
    (e f : Entropy) → IsBytes e → IsBytes f → encode_entropy e ≡ encode_entropy f → e ≡ f
encode_entropy-injective e f he hf h = entropy_number-injective e f he hf (
    base32_digits-injective 8 (entropy_number e) (entropy_number f) (entropy_number-IsBelow e he)
      (entropy_number-IsBelow f hf) (unfold encode_entropy in h))

decimal-append : (k n : ℕ) (rest : Bytes) → decimal k n rest ≡ decimal k n [] ++ rest
unfolding decimal
decimal-append zero n rest = refl
decimal-append (suc k) n rest = elim (Bool-cases (ltb n 10)) [
  | inl e ↦ rw e refl
  | inr e ↦ rw e (
      decimal-append k (n / 10) ((n % 10 + 48) ∷ rest)
      ∙ sym (append_assoc (decimal k (n / 10) []) ((n % 10 + 48) ∷ []) rest)
      ∙ ap (λ xs. xs ++ rest) (sym (decimal-append k (n / 10) ((n % 10 + 48) ∷ []))))
]

length-encode_entropy : (e : Entropy) → length (encode_entropy e) ≡ 8
unfolding encode_entropy
length-encode_entropy e = length-base32_digits 8 (entropy_number e)

-- Two parcels have one internal identifier only if their five random bytes agree, whatever the years.
pub generate_internal_awb-injective :
    (e f : Entropy) (t u : Time)
    → IsBytes e
    → IsBytes f
    → generate_internal_awb (ok e) t ≡ generate_internal_awb (ok f) u
    → e ≡ f
unfolding generate_internal_awb
generate_internal_awb-injective e f t u he hf h =
    let m : Bytes = b'-' ∷ encode_entropy e in
    let n : Bytes = b'-' ∷ encode_entropy f in
    let body : decimal 12 (year t) m ≡ decimal 12 (year u) n = cc in
    let (_, back) =
      append_split (decimal 12 (year t) []) (decimal 12 (year u) []) m n
        (omega (arith, length-encode_entropy e, length-encode_entropy f))
        (sym (decimal-append 12 (year t) m) ∙ body ∙ decimal-append 12 (year u) n) in
    encode_entropy-injective e f he hf (cc)
