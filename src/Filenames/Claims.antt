-- ===== src/Filenames/Claims.antt =====
-- `control_pattern_for`, `data_pattern_for` and `claims_control_file`: which feed's control file a
-- name is. Python's `re` is a parameter: `fullmatch` with the group `stem`, and `fullmatch` of a
-- pattern that may not compile.
use Prim.Native.Char.{Char}
use Prim.Native.String.{String}
use reporting_platform_local.Common.{
  Bool, true, false, Option, none, some, if◌then◌else◌, truthy, or_empty, replace,
}
use reporting_platform_local.Filenames.Patterns.{stem_pattern}

-- The gate a control file is looked for at
pub data Block : Type 0 where
  arrival delivery : Block

-- What a feed declares of its names; an absent setting is `none`.
pub record FeedNames : Type 0 where
  pub filename_pattern : String
  pub archive : Bool
  pub source_pattern : Option String
  pub arrival_control : Option String
  pub delivery_control : Option String

unfoldable pub control_pattern_for : FeedNames → Block → Option String
control_pattern_for feed arrival = if feed.archive then none else feed.arrival_control
control_pattern_for feed delivery = feed.delivery_control

unfoldable pub data_pattern_for : FeedNames → Block → Option String
data_pattern_for feed arrival = feed.source_pattern
data_pattern_for feed delivery = some feed.filename_pattern

pub record Matcher : Type 0 where
  pub match_stem : String → String → Option String
  pub fullmatch : String → String → Option Bool
  pub isalnum : Char → Bool

-- `except re.error: return True`
abbrev pub or_true : Option Bool → Bool
or_true none = true
or_true (some b) = b

module _ (re : Matcher) where
  -- The stem that was matched, against the data names of the feed
  unfoldable pub is_stem_of : String → String → Bool
  is_stem_of data_pattern stem = elim (stem_pattern re.isalnum data_pattern) [
    | none ↦ true
    | some shape ↦ or_true (re.fullmatch shape stem)
  ]

  unfoldable pub claims_control_file : FeedNames → String → Block → Bool
  claims_control_file feed filename block =
      let pattern = or_empty (control_pattern_for feed block) in
      let data_pattern = or_empty (data_pattern_for feed block) in
      if truthy pattern
      then elim (re.match_stem (replace "{stem}" "(?P<stem>.+)" pattern) filename) [
        | none ↦ false
        | some stem ↦ if truthy data_pattern then is_stem_of data_pattern stem else false
      ]
      else false
