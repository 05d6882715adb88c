-- ===== src/Migration/RowHashes.antt =====
-- The reduction of rows to keys and hashes in reporting_platform/migration/comparators.py. A row's
-- values, their canonical text and SHA-256 with its encoding are parameters.
use reporting_platform_local.Common.{
  not, Option, List, [], ◌∷◌, map, String, filter, contains, Dict, lookup, string_eq, join, ◌||◌,
}

abbrev pub technical_columns : List String
technical_columns =
    "_cob_date" ∷ "_ingest_ts" ∷ "_source_file" ∷ "_file_version" ∷ "_row_number" ∷ "_batch_id"
    ∷ "_delivery_id" ∷ "_received_at" ∷ "_schema_version" ∷ "_source_system" ∷ []

unfoldable pub drop_technical_columns : {V : Type 0} → Dict String V → List String → Dict String V
drop_technical_columns row extra =
    filter (λ c. not (contains technical_columns c.0 || contains extra c.0)) row

module _ {V : Type 0} (canonical_value : Option V → String) (sha256 : String → String) where
  unfoldable pub canonical_row_hash : Dict String V → List String → String
  canonical_row_hash row columns =
      sha256 (join "\u{1f}" (map (λ c. canonical_value (lookup c row)) columns))

  unfoldable pub key_tuple : Dict String V → List String → List String
  key_tuple row key = map (λ k. canonical_value (lookup k row)) key
