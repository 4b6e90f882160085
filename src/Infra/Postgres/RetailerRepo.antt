-- ===== src/Infra/Postgres/RetailerRepo.antt =====
-- internal/infra/postgres/retailer_repo.go: the retailer with an API key's hash. `unreadable` is the error of the
-- query or of its row, where there is one.
use dashfetchr.Base.{Option, none, some, String, List, [], ◌∷◌, str_eq, if◌then◌else◌}
use dashfetchr.Core.Errors.{Error, Result, ok, err, wrapped, not_found}
use dashfetchr.Core.Retailer.{Retailer}

-- A row of the table: the hash, and the columns that are selected.
abbrev pub Row : Type 0
Row = String × Retailer

first : String → List Row → Option Retailer
first hash [] = none
first hash ((h, r) ∷ t) = let rest = first hash t in if str_eq h hash then some r else rest

scan_retailer : Option Error → Option Retailer → Result Retailer
scan_retailer (some x) o = err (wrapped "postgres: scan retailer" x)
scan_retailer none none = err not_found
scan_retailer none (some r) = ok r

unfoldable pub get_by_api_key_hash : Option Error → String → List Row → Result Retailer
unfolding first scan_retailer
get_by_api_key_hash unreadable hash t = scan_retailer unreadable (first hash t)
