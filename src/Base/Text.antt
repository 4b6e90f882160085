-- ===== src/Base/Text.antt =====
-- The functions of Go's package strings that the program calls, and the bytes of an ASCII literal.
use Prim.Native.Nat.{ℕ, ◌+◌}
use Prim.Native.Char.{Char, code}
use Prim.Native.String.{String, ◌++◌ as str_append}
use mathlib.Core.Path.{◌≡◌, sym, ap, ◌∙◌}
use mathlib.Core.Logic.{inl, inr}
use mathlib.Core.Bool.{Bool, ◌&&◌, ◌||◌}
use mathlib.Core.Option.{Option, none, some}
use mathlib.Core.List.{List, [], ◌∷◌}
use native.Mathlib.Omega.{arith}
use text.Mathlib.TextEquality.{Char-path}
use text.Mathlib.TextLemmas.{nil-append, cons-append}
use dashfetchr.Base.Tests.{Bool-cases, Option-cases, Bool-cases, leb, ◌==◌, ==_iff, if◌then◌else◌}

-- The bytes of a Go string.
abbrev pub Bytes : Type 0
Bytes = List ℕ

-- `String` has its own `[]` and `∷`.
unfoldable pub codes : String → Bytes
codes String.[] = []
codes (String.◌∷◌ c s) = code c ∷ codes s

infixr 65 ◌<>◌
abbrev pub ◌<>◌ : String → String → String
s <> t = str_append s t

-- strings.CutPrefix(s, p): what follows the prefix.
unfoldable pub cut_prefix : String → String → Option String
cut_prefix String.[] s = some s
cut_prefix (String.◌∷◌ c p) String.[] = none
cut_prefix (String.◌∷◌ c p) (String.◌∷◌ d s) = if code c == code d then cut_prefix p s else none

abbrev pub or_else_text : Option String → String → String
or_else_text none s = s
or_else_text (some r) s = r

-- strings.TrimPrefix(s, p)
unfoldable pub trim_prefix : String → String → String
unfolding cut_prefix
trim_prefix p s = or_else_text (cut_prefix p s) s

abbrev after_head : Char → Option (String × String) → Option (String × String)
after_head c none = none
after_head c (some (b, a)) = some (String.◌∷◌ c b, a)

-- strings.Cut(s, sep) for a separator of one character: what stands before and after the first one.
unfoldable pub cut : ℕ → String → Option (String × String)
cut sep String.[] = none
cut sep (String.◌∷◌ c s) =
    let rest = after_head c (cut sep s) in if code c == sep then some (String.[], s) else rest

-- unicode.IsSpace
unfoldable pub is_space : ℕ → Bool
is_space c =
    (leb 9 c && leb c 13)
    || (c == 32)
    || (c == 133)
    || (c == 160)
    || (c == 5760)
    || (leb 8192 c && leb c 8202)
    || (c == 8232)
    || (c == 8233)
    || (c == 8239)
    || (c == 8287)
    || (c == 12288)

trim_left : String → String
trim_left String.[] = String.[]
trim_left (String.◌∷◌ c s) =
    let rest = trim_left s in if is_space (code c) then rest else String.◌∷◌ c s

keep_head : Char → String → String
keep_head c String.[] = if is_space (code c) then String.[] else String.◌∷◌ c String.[]
keep_head c s = String.◌∷◌ c s

trim_right : String → String
unfolding keep_head
trim_right String.[] = String.[]
trim_right (String.◌∷◌ c s) = keep_head c (trim_right s)

-- strings.TrimSpace
unfoldable pub trim_space : String → String
unfolding trim_left trim_right is_space
trim_space s = trim_right (trim_left s)

-- The code points of strings.ToLower(s), where they matter for a comparison with an ASCII text: besides the
-- capital letters of ASCII, the two characters whose lower case is in ASCII, U+0130 and U+212A. Every
-- other character stays outside of ASCII, and is left as it is.
unfoldable pub lower_code : ℕ → ℕ
lower_code c =
    if leb 65 c && leb c 90 then c + 32 else if c == 304 then 105 else if c == 8490 then 107 else c

unfoldable pub lower_codes : String → Bytes
unfolding lower_code
lower_codes String.[] = []
lower_codes (String.◌∷◌ c s) = lower_code (code c) ∷ lower_codes s

-- What CutPrefix returns follows the prefix.
pub cut_prefix-some : (p s r : String) → cut_prefix p s ≡ some r → s ≡ p <> r
unfolding cut_prefix
cut_prefix-some String.[] s r h = cc (nil-append r)
cut_prefix-some (String.◌∷◌ c p) String.[] r h = cc
cut_prefix-some (String.◌∷◌ c p) (String.◌∷◌ d s) r h =
    ground
      (arith, ==_iff (code c) (code d), Char-path c d, cut_prefix-some p s r, cons-append c p r)

-- The two parts that Cut returns surround the separator.
cut-some :
    (sep : ℕ) (s b a : String)
    → cut sep s ≡ some (b, a)
    → (c : Char) × (code c ≡ sep) × (s ≡ b <> String.◌∷◌ c a)
unfolding cut
cut-some sep String.[] b a h = absurd (ground arith)
cut-some sep (String.◌∷◌ d s) b a h = elim (Bool-cases (code d == sep)) [
  | inl e ↦ (d, (==_iff (code d) sep).0 e, ground (arith, nil-append (String.◌∷◌ d a)))
  | inr e ↦ elim (Option-cases (cut sep s)) [
    | inl p ↦ absurd (ground arith)
    | inr ((x, y), p) ↦
        let (c, q, t) = cut-some sep s x y p in
        (c, q, ground (arith, cons-append d x (String.◌∷◌ c y)))
  ]
]

-- The same for a colon.
pub cut_colon : (s b a : String) → cut 58 s ≡ some (b, a) → s ≡ b <> ":" <> a
cut_colon s b a h =
    let (c, q, e) = cut-some 58 s b a h in
    let joined : ":" <> a ≡ String.◌∷◌ ":" a =
      cons-append ":" String.[] a ∙ ap (λ (t : String). String.◌∷◌ ":" t) (nil-append a) in
    e
    ∙ ap (λ (x : Char). b <> String.◌∷◌ x a) (Char-path c ":" q)
    ∙ ap (λ (t : String). b <> t) (sym joined)
