-- ===== src/Infra/Postgres/Json/Laws.antt =====
-- About encoding a column and reading it back (internal/infra/postgres/json.go).
use dashfetchr.Base.{String, eq_iff, Bytes, [], ◌∷◌, ◌≡◌, ◌≢◌, refl, ◌∙◌, arith}
use dashfetchr.Core.Errors.{ok, wrap}
use dashfetchr.Infra.Postgres.Json.{Codec, marshal_json, unmarshal_json, null_if_empty, or_blank}

pub or_blank-null_if_empty : (s : String) → or_blank (null_if_empty s) ≡ s
unfolding null_if_empty
or_blank-null_if_empty s = ground (arith, eq_iff s "")

-- What the codec makes of this value, also after jsonb rewrote it, is not empty and is decoded to the value.
abbrev pub IsKept {ℓ} : {A : Type ℓ} → (Bytes → Bytes) → Codec A → A → Type ℓ
IsKept keep c v = (b : Bytes) → c.marshal v ≡ ok b → (keep b ≢ []) × (c.unmarshal (keep b) ≡ ok v)

pub unmarshal_bytes {ℓ} :
    {A : Type ℓ} (c : Codec A) (zero : A) (bs : Bytes)
    → bs ≢ []
    → unmarshal_json c zero bs ≡ wrap "postgres: json unmarshal" (c.unmarshal bs)
unfolding unmarshal_json
unmarshal_bytes c zero [] h = absurd (h refl)
unmarshal_bytes c zero (b ∷ bs) h = refl

pub marshalled {ℓ} :
    {A : Type ℓ} (c : Codec A) (v : A) {b : Bytes} → marshal_json c v ≡ ok b → c.marshal v ≡ ok b
unfolding marshal_json
marshalled c v h = ground arith

pub unmarshal_kept {ℓ} :
    {A : Type ℓ} (keep : Bytes → Bytes) (c : Codec A) (zero v : A) {b : Bytes}
    → IsKept keep c v
    → marshal_json c v ≡ ok b
    → unmarshal_json c zero (keep b) ≡ ok v
unmarshal_kept keep c zero v {b} laws h =
    let (there, decoded) = laws b (marshalled c v h) in
    unmarshal_bytes c zero (keep b) there ∙ (rw decoded)
