-- ===== src/Migration/Correlate.antt =====
-- reporting_platform/migration/correlate.py: pairing one delivery across the legacy and new sides.
-- `hashlib.sha1` with its encoding, `date.isoformat` and `str.lower` are parameters.
use reporting_platform_local.Common.{
  Bool, ◌&&◌, not, Option, none, some, String, ◌==◌, string_eq, Date, date_eq, Result, ok,
  refuse_if, ◌>>◌, List, [], ◌∷◌, if◌then◌else◌, or_empty, truthy, join, text_of,
}

-- The tiers, the strongest first
pub data Tier : Type 0 where
  producer_run source_hash filename business_date_only : Tier

pub record Evidence : Type 0 where
  pub feed : String
  pub business_date : Date
  pub source_system : Option String
  pub source_filename : Option String
  pub source_sha256 : Option String
  pub producer_run_id : Option String

pub record Correlation : Type 0 where
  pub key : String
  pub tier : Tier

-- The two caller bugs that raise ValueError
pub data CallerBug : Type 0 where
  two_feeds two_business_dates : CallerBug

abbrev pub tier_name : Tier → String
tier_name producer_run = "producer_run"
tier_name source_hash = "source_hash"
tier_name filename = "filename"
tier_name business_date_only = "business_date_only"

-- The parameter `digest` is the first 20 hex digits of the SHA-1 of a text.
module _ (digest : String → String) (isoformat : Date → String) (lower : String → String) where
  unfoldable pub correlation_key : Tier → String → Date → List String → String
  correlation_key tier feed business_date parts =
      let material = join "\u{1f}" (tier_name tier ∷ feed ∷ isoformat business_date ∷ parts) in
      text_of (tier_name tier ∷ ":" ∷ digest material ∷ [])

  abbrev pub on_tier : Tier → Evidence → List String → Correlation
  on_tier tier legacy parts = record {
    key = correlation_key tier legacy.feed legacy.business_date parts;
    tier = tier;
  }

  -- The tiers in order: the first that both sides supply decides, for or against.
  unfoldable pub strongest : Bool → Evidence → Evidence → Option Correlation
  strongest allow_business_date_only legacy new =
      let legacy_run = or_empty legacy.producer_run_id in
      let new_run = or_empty new.producer_run_id in
      let legacy_hash = or_empty legacy.source_sha256 in
      let new_hash = or_empty new.source_sha256 in
      let legacy_name = or_empty legacy.source_filename in
      let new_name = or_empty new.source_filename in
      let legacy_system = or_empty legacy.source_system in
      let new_system = or_empty new.source_system in
      if truthy legacy_run && truthy new_run
      then (if legacy_run == new_run
          then some (on_tier producer_run legacy (legacy_run ∷ []))
          else none)
      else if truthy legacy_hash && truthy new_hash
      then (if lower legacy_hash == lower new_hash
          then some (on_tier source_hash legacy (lower legacy_hash ∷ []))
          else none)
      else if truthy legacy_name && truthy new_name && truthy legacy_system && truthy new_system
      then (if legacy_name == new_name && legacy_system == new_system
          then some (on_tier filename legacy (legacy_system ∷ legacy_name ∷ []))
          else none)
      else if allow_business_date_only
      then some (on_tier business_date_only legacy [])
      else none

  unfoldable pub correlate : Bool → Evidence → Evidence → Result CallerBug (Option Correlation)
  correlate allow_business_date_only legacy new =
      refuse_if (not (legacy.feed == new.feed)) two_feeds
      >> refuse_if (not (legacy.business_date == new.business_date)) two_business_dates
      >> ok (strongest allow_business_date_only legacy new)
