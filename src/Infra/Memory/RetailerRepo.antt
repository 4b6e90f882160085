-- ===== src/Infra/Memory/RetailerRepo.antt =====
-- internal/infra/memory/retailer_repo.go: the retailers by the hashes of their API keys.
use dashfetchr.Base.{true, Option, none, some, String, [], ◌∷◌}
use dashfetchr.Base.Uuid.{Uuid}
use dashfetchr.Base.Maps.{Map, string_eq, lookup}
use dashfetchr.Core.Errors.{Result, ok, err, not_found}
use dashfetchr.Core.Retailer.{Retailer}
use dashfetchr.Auth.{hash_api_key}

pub record RetailerRepo : Type 0 where
  pub by_key_hash : Map String Retailer

abbrev pub dev_api_key : String
dev_api_key = "df_dev_pilot_2026"

-- 00000000-0000-0000-0000-000000000001
abbrev pub dev_retailer_id : Uuid
dev_retailer_id = 1

unfoldable pub new : (String → String) → RetailerRepo
unfolding hash_api_key
new sha256_hex = record {
  by_key_hash =
      (
        hash_api_key sha256_hex dev_api_key,
        record {
          id = dev_retailer_id;
          name = "Dev Pilot Retailer";
          slug = "dev-pilot";
          is_active = true;
        },
      )
      ∷ [];
}

abbrev found : Option Retailer → Result Retailer
found none = err not_found
found (some r) = ok r

unfoldable pub get_by_api_key_hash : String → RetailerRepo → Result Retailer
unfolding lookup
get_by_api_key_hash hash r = found (lookup hash r.by_key_hash)
