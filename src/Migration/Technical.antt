-- ===== src/Migration/Technical.antt =====
-- The technical columns of a row and its hash.
use reporting_platform_local.Common.{
  Bool, true, false, not, ◌||◌, Option, List, [], ◌∷◌, map, String, filter, contains, Dict, lookup,
  string_eq, join, All, ◌≡◌, refl, ap, arith,
}
use reporting_platform_local.Migration.RowHashes.{
  technical_columns, drop_technical_columns, canonical_row_hash,
}

lookup-filter :
    {V : Type 0} (p : String → Bool) (row : Dict String V) (c : String)
    → p c ≡ true
    → lookup c (filter (λ item. p item.0) row) ≡ lookup c row
unfolding lookup
lookup-filter {V} p [] c h = refl
lookup-filter {V} p ((k, v) ∷ row) c h = ground (arith, lookup-filter p row c h)

module _ {V : Type 0} (canonical_value : Option V → String) (sha256 : String → String) where
  same_values :
      (row : Dict String V) (extra columns : List String)
      → All (λ c. contains technical_columns c || contains extra c ≡ false) columns
      → map (λ c. canonical_value (lookup c (drop_technical_columns row extra))) columns
        ≡ map (λ c. canonical_value (lookup c row)) columns
  unfolding drop_technical_columns
  same_values row extra [] h = refl
  same_values row extra (c ∷ columns) (h, hs) =
      let kept =
        lookup-filter (λ k. not (contains technical_columns k || contains extra k)) row c
          (ap not h) in
      rw (kept, same_values row extra columns hs)

  -- Dropping the technical columns of a row, and any others by name, leaves its hash over the rest
  -- of its columns as it was.
  pub canonical_row_hash-drop_technical_columns :
      (row : Dict String V) (extra columns : List String)
      → All (λ c. contains technical_columns c || contains extra c ≡ false) columns
      → canonical_row_hash canonical_value sha256 (drop_technical_columns row extra) columns
        ≡ canonical_row_hash canonical_value sha256 row columns
  unfolding canonical_row_hash
  canonical_row_hash-drop_technical_columns row extra columns h =
      ap (λ parts. sha256 (join "\u{1f}" parts)) (same_values row extra columns h)
