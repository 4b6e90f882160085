-- ===== src/Infra/Postgres/Json.antt =====
-- internal/infra/postgres/json.go, and nullIfEmpty of awb_repo.go. encoding/json, for a type, is a `Codec`; a
-- column that is NULL reads as no bytes.
pub mod Laws
use dashfetchr.Base.{Option, none, some, String, Bytes, [], ◌∷◌, str_eq, if◌then◌else◌}
use dashfetchr.Core.Errors.{Result, ok, err, wrap}

pub record Codec {ℓ} (A : Type ℓ) : Type ℓ where
  pub marshal : A → Result Bytes
  pub unmarshal : Bytes → Result A

module _ {ℓ} {A : Type ℓ} (c : Codec A) where
  -- marshalJSON, of a value that is not nil
  unfoldable pub marshal_json : A → Result Bytes
  marshal_json v = wrap "postgres: json marshal" (c.marshal v)

  -- unmarshalJSON into a variable that holds `zero`
  unfoldable pub unmarshal_json : A → Bytes → Result A
  unmarshal_json zero [] = ok zero
  unmarshal_json zero (b ∷ bs) = wrap "postgres: json unmarshal" (c.unmarshal (b ∷ bs))

-- A column of text that may be NULL.
unfoldable pub null_if_empty : String → Option String
null_if_empty s = if str_eq s "" then none else some s

abbrev pub or_blank : Option String → String
or_blank none = ""
or_blank (some s) = s
