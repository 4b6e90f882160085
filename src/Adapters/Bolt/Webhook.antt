-- ===== src/Adapters/Bolt/Webhook.antt =====
-- internal/adapters/carriers/bolt/webhook.go: the signature of a webhook. `hmac_hex` is the hex digest of
-- HMAC-SHA256 under a secret; `order` is the order in which `range` visits a map.
use dashfetchr.Base.{
  not, Option, none, some, String, Bytes, [], ◌∷◌, str_eq, trim_prefix, lower_codes, bytes_eq,
  if◌then◌else◌,
}
use dashfetchr.Base.Maps.{Map, string_eq, lookup}
use dashfetchr.Core.Errors.{
  Result, ◌>>◌, refuse_if, secret_missing, signature_missing, signature_mismatch,
}

-- The loop of `headerLookup`.
unfoldable pub folded_lookup : String → Map String String → String
folded_lookup key [] = ""
folded_lookup key ((k, v) ∷ h) =
    let rest = folded_lookup key h in if bytes_eq (lower_codes k) (lower_codes key) then v else rest

abbrev or_folded : Option String → String → String
or_folded (some v) folded = v
or_folded none folded = folded

module _ (order : Map String String → Map String String) where
  unfoldable pub header_lookup : Map String String → String → String
  unfolding folded_lookup
  header_lookup h key = or_folded (lookup key h) (folded_lookup key (order h))

  module _ (hmac_hex : String → Bytes → String) where
    unfoldable pub verify_signature : Bytes → Map String String → String → Result (Unit {0})
    unfolding header_lookup
    verify_signature body headers secret = do
      refuse_if (str_eq secret "") secret_missing
      let provided = header_lookup headers "X-Bolt-Signature"
      refuse_if (str_eq provided "") signature_missing
      refuse_if (not (str_eq (trim_prefix "sha256=" provided) (hmac_hex secret body)))
          signature_mismatch
