-- ===== src/Auth.antt =====
-- internal/auth: the hash of an API key, and who called, in the request's context. `sha256_hex` is the hex
-- digest of SHA-256. A nil retailer is never put in a context.
use dashfetchr.Base.{Option, none, some, String, str_eq, trim_space, if◌then◌else◌}
use dashfetchr.Core.Retailer.{Retailer}

unfoldable pub hash_api_key : (String → String) → String → String
hash_api_key sha256_hex raw = sha256_hex (trim_space raw)

pub record Context : Type 0 where
  pub retailer : Option Retailer
  pub carrier_id : Option String

abbrev pub background : Context
background = record { retailer = none; carrier_id = none }

unfoldable pub with_retailer : Context → Retailer → Context
with_retailer ctx r = record ctx { retailer = some r }

unfoldable pub retailer_from_context : Context → Option Retailer
retailer_from_context ctx = ctx.retailer

unfoldable pub with_carrier_id : Context → String → Context
with_carrier_id ctx id = record ctx { carrier_id = some id }

abbrev non_empty : Option String → Option String
non_empty none = none
non_empty (some id) = if str_eq id "" then none else some id

unfoldable pub carrier_id_from_context : Context → Option String
carrier_id_from_context ctx = non_empty ctx.carrier_id
