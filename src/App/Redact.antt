-- ===== src/App/Redact.antt =====
-- internal/app/app.go: redactDBURL and indexOf, which keep a password out of the log. A text is its bytes.
use dashfetchr.Base.{
  All, length, length-append, ==_iff, append_assoc, ℕ, suc, ltb, ◌==◌, ◌+◌, ◌≡◌, ◌≢◌, refl, ap, ◌∙◌,
  sym, arith, Option, none, some, Bytes, codes, [], ◌∷◌, ◌++◌, Bool, true, false, if◌then◌else◌,
}

-- s[i:i+len(sub)] == sub, at i = 0
unfoldable pub begins : Bytes → Bytes → Bool
begins [] s = true
begins (c ∷ sub) [] = false
begins (c ∷ sub) (d ∷ s) = let rest = begins sub s in if c == d then rest else false

abbrev next : Option ℕ → Option ℕ
next none = none
next (some i) = some (suc i)

-- indexOf(s, sub); `none` is -1.
unfoldable pub index_of : Bytes → Bytes → Option ℕ
unfolding begins
index_of sub [] = if begins sub [] then some 0 else none
index_of sub (c ∷ s) =
    let rest = next (index_of sub s) in if begins sub (c ∷ s) then some 0 else rest

-- s[:i] and s[i:]
unfoldable pub take : ℕ → Bytes → Bytes
take (suc i) (c ∷ s) = c ∷ take i s
take _ s = []

unfoldable pub drop : ℕ → Bytes → Bytes
drop (suc i) (c ∷ s) = drop i s
drop (suc i) [] = []
drop _ s = s

abbrev after : Option ℕ → ℕ
after none = 0
after (some j) = j + 3

-- From the position of "@" after the scheme on.
redacted : Bytes → ℕ → Option ℕ → Bytes
unfolding take drop codes
redacted url i none = url
redacted url i (some at) =
    if ltb 0 at then take i url ++ codes "***@" ++ drop (suc (i + at)) url else url

unfoldable pub redact_db_url : Bytes → Bytes
unfolding redacted index_of drop codes
redact_db_url url =
    let i = after (index_of (codes "://") url) in redacted url i (index_of (codes "@") (drop i url))

begins_self : (sub rest : Bytes) → begins sub (sub ++ rest) ≡ true
unfolding begins
begins_self [] rest = refl
begins_self (c ∷ sub) rest = ground (arith, ==_iff c c, begins_self sub rest)

-- A text whose first byte does not stand before it is found where it stands.
index_of_first :
    (c : ℕ) (sub xs rest : Bytes)
    → All (λ x. x ≢ c) xs
    → index_of (c ∷ sub) (xs ++ (c ∷ sub ++ rest)) ≡ some (length xs)
unfolding index_of begins
index_of_first c sub [] rest all = ground (arith, ==_iff c c, begins_self sub rest)
index_of_first c sub (x ∷ xs) rest (h, all) =
    ground (arith, ==_iff c x, index_of_first c sub xs rest all)

drop_length : (xs ys : Bytes) → drop (length xs) (xs ++ ys) ≡ ys
unfolding drop
drop_length [] ys = refl
drop_length (x ∷ xs) ys = drop_length xs ys

take-length : (xs ys : Bytes) → take (length xs) (xs ++ ys) ≡ xs
unfolding take
take-length [] [] = refl
take-length [] (y ∷ ys) = refl
take-length (x ∷ xs) ys = ap (λ t. x ∷ t) (take-length xs ys)

-- What stands after, and before, a head of known length.
drop_head : (n : ℕ) (url xs ys : Bytes) → url ≡ xs ++ ys → length xs ≡ n → drop n url ≡ ys
drop_head n url xs ys h k =
    ap (λ m. drop m url) (sym k) ∙ ap (λ u. drop (length xs) u) h ∙ drop_length xs ys

take_head : (n : ℕ) (url xs ys : Bytes) → url ≡ xs ++ ys → length xs ≡ n → take n url ≡ xs
take_head n url xs ys h k =
    ap (λ m. take m url) (sym k) ∙ ap (λ u. take (length xs) u) h ∙ take-length xs ys

redacted_lem :
    (url head login host : Bytes)
    → url ≡ head ++ (login ++ (codes "@" ++ host))
    → login ≢ []
    → redacted url (length head) (some (length login)) ≡ (head ++ codes "***@") ++ host
unfolding redacted
redacted_lem url head [] host h some_login = absurd (some_login refl)
redacted_lem url head (c ∷ cs) host h some_login =
    let login = c ∷ cs in
    let t = take_head (length head) url head (login ++ (codes "@" ++ host)) h refl in
    let whole : url ≡ (head ++ (login ++ codes "@")) ++ host = h ∙ simp (append_assoc) in
    let size : length (head ++ (login ++ codes "@")) ≡ suc (length head + length login) =
      omega (arith, length-append head (login ++ codes "@"), length-append login (codes "@")) in
    let d =
      drop_head (suc (length head + length login)) url (head ++ (login ++ codes "@")) host whole
        size in
    ground arith

-- Of the URL of a database, with a scheme without a colon and a login without an at sign, the log shows the
-- scheme and what follows the login.
pub redact_db_url_lem :
    (scheme login host : Bytes)
    → All (λ x. x ≢ 58) scheme
    → All (λ x. x ≢ 64) login
    → login ≢ []
    → redact_db_url (scheme ++ (codes "://" ++ (login ++ (codes "@" ++ host))))
      ≡ ((scheme ++ codes "://") ++ codes "***@") ++ host
unfolding redact_db_url
redact_db_url_lem scheme login host no_colon no_at some_login =
    let rest = login ++ (codes "@" ++ host) in
    let head = scheme ++ codes "://" in
    let url = scheme ++ (codes "://" ++ rest) in
    let e1 : index_of (codes "://") url ≡ some (length scheme) =
      index_of_first 58 (47 ∷ 47 ∷ []) scheme rest no_colon in
    let split : url ≡ head ++ rest = simp (append_assoc) in
    let size : length head ≡ length scheme + 3 =
      omega (arith, length-append scheme (codes "://")) in
    let e2 : drop (length scheme + 3) url ≡ rest =
      drop_head (length scheme + 3) url head rest split size in
    let e3 : index_of (codes "@") rest ≡ some (length login) =
      index_of_first 64 [] login host no_at in
    ap (λ o. redacted url (after o) (index_of (codes "@") (drop (after o) url))) e1
    ∙ ap (λ r. redacted url (length scheme + 3) (index_of (codes "@") r)) e2
    ∙ ap (λ o. redacted url (length scheme + 3) o) e3
    ∙ ap (λ n. redacted url n (some (length login))) (sym size)
    ∙ redacted_lem url head login host split some_login
