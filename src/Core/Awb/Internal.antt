-- ===== src/Core/Awb/Internal.antt =====
-- internal/core/awb/awb.go: the internal identifier, "DF-<year>-<base32 of five random bytes>".
use dashfetchr.Base.{Bytes, ℕ, zero, suc, ◌+◌, ◌*◌, ◌/◌, ◌%◌, [], ◌∷◌, ltb, if◌then◌else◌}
use dashfetchr.Base.Time.{Time, year}
use dashfetchr.Core.Errors.{Result, ok, ◌>>=◌}

-- The `[5]byte` that `rand.Read` fills.
pub record Entropy : Type 0 where
  pub b0 : ℕ
  pub b1 : ℕ
  pub b2 : ℕ
  pub b3 : ℕ
  pub b4 : ℕ

-- A digit of `base32.StdEncoding`: A to Z, then 2 to 7.
unfoldable pub base32_digit : ℕ → ℕ
base32_digit n = if ltb n 26 then n + 65 else n + 24

-- The last `k` base-32 digits of `n`, before `rest`.
unfoldable pub base32_digits : ℕ → ℕ → Bytes → Bytes
base32_digits zero n rest = rest
base32_digits (suc k) n rest = base32_digits k (n / 32) (base32_digit (n % 32) ∷ rest)

-- The five bytes as a number, first byte first.
unfoldable pub entropy_number : Entropy → ℕ
entropy_number e = (((e.b0 * 256 + e.b1) * 256 + e.b2) * 256 + e.b3) * 256 + e.b4

-- `EncodeToString` of five bytes: eight digits, so that there is no padding to trim.
unfoldable pub encode_entropy : Entropy → Bytes
unfolding entropy_number base32_digits base32_digit
encode_entropy e = base32_digits 8 (entropy_number e) []

-- `%d` of a number, by its last `k` decimal digits or fewer.
unfoldable pub decimal : ℕ → ℕ → Bytes → Bytes
decimal zero n rest = rest
decimal (suc k) n rest =
    let more = decimal k (n / 10) ((n % 10 + 48) ∷ rest) in
    if ltb n 10 then (n + 48) ∷ rest else more

-- `Sprintf("DF-%d-%s", ...)`. A year that an int64 of seconds reaches has at most twelve digits.
abbrev pub internal_of : Entropy → Time → Bytes
internal_of b t = b'D' ∷ b'F' ∷ b'-' ∷ decimal 12 (year t) (b'-' ∷ encode_entropy b)

unfoldable pub generate_internal_awb : Result Entropy → Time → Result Bytes
unfolding encode_entropy decimal
generate_internal_awb entropy t = do b ← entropy; ok (internal_of b t)
