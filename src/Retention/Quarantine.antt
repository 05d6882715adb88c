-- ===== src/Retention/Quarantine.antt =====
-- reporting_platform/retention/quarantine.py: the sweep of rejected deliveries. The digits of a
-- pattern's `\d`, `strptime`, `int`, the clock and the listing of the bucket are parameters.
use Prim.Native.Char.{code}
use Prim.Native.String.{[], ◌∷◌}
use reporting_platform_local.Common.{
  after_prefix, ℕ, zero, suc, ◌+◌, Bool, false, not, ◌&&◌, Option, none, some, List, [], ◌∷◌, map,
  String, ◌==◌, if◌then◌else◌, less, Dict, lookup, Date, date_order, string_eq, nat_eq, truthy,
  or_empty, Result, ok, err, ◌>>=◌,
}
use reporting_platform_local.Retention.Windows.{Fault, Block, class_keep_years}
use reporting_platform_local.Retention.References.{first_segment, is_line}
use reporting_platform_local.Retention.Sweeps.{seconds_of_years}
use reporting_platform_local.Retention.Landing.{Object}

pub record Dates : Type 0 where
  pub digit : ℕ → Bool
  pub strptime : String → Option Date
  pub int : String → ℕ
  pub day_before : ℕ → Date

-- The groups of `KEY_RE`
pub record Rejected : Type 0 where
  pub feed : String
  pub year : String
  pub month : String
  pub stamp : String

-- `retention_policy`, its default window for the prefix, and the class of each known feed
pub record QuarantineConfig : Type 0 where
  pub policy : String → Block
  pub default_years : Result Fault ℕ
  pub retention_class : Dict String String

pub record QuarantineTally : Type 0 where
  pub expired : List Object
  pub retained : ℕ
  pub unrecognised : ℕ

-- What the sweep has deleted, and its counts unless it raises
pub record QuarantineSweep : Type 0 where
  pub deleted : List String
  pub tally : Result Fault QuarantineTally

module _ (dates : Dates) where
  -- `\d{n}`, and the text after it
  unfoldable pub take_digits : ℕ → String → Option (String × String)
  take_digits zero s = some ([], s)
  take_digits (suc n) [] = none
  take_digits (suc n) (c ∷ s) =
      let rest = take_digits n s in
      if dates.digit (code c)
      then elim rest [ none ↦ none | some (digits, after) ↦ some (c ∷ digits, after) ]
      else none

  abbrev pub is_digits : ℕ → String → Bool
  is_digits n s = elim (take_digits n s) [
    | none ↦ false
    | some (digits, after) ↦ not (truthy after)
  ]

  -- `(?P<stamp>\d{8})T\d{6}Z_.+$`
  unfoldable pub stamp_of : String → Option String
  stamp_of name = elim (take_digits 8 name) [
    | none ↦ none
    | some (stamp, at_t) ↦ elim (after_prefix "T" at_t) [
      | none ↦ none
      | some time ↦ elim (take_digits 6 time) [
        | none ↦ none
        | some (_, at_z) ↦ elim (after_prefix "Z_" at_z) [
          | none ↦ none
          | some rest ↦ if is_line rest then some stamp else none
        ]
      ]
    ]
  ]

  -- The folders of a key under the prefix, and the name in the last
  unfoldable pub match_folders : String → Option Rejected
  match_folders text =
      let (feed, after_feed) = first_segment text in
      let (year, after_year) = first_segment (or_empty after_feed) in
      let (month, name) = first_segment (or_empty after_year) in
      elim (stamp_of (or_empty name)) [
        | none ↦ none
        | some stamp ↦
            if truthy feed && is_digits 4 year && is_digits 2 month
            then some (record { feed = feed; year = year; month = month; stamp = stamp })
            else none
      ]

  -- `KEY_RE.match`
  unfoldable pub match_key : String → Option Rejected
  match_key key = elim (after_prefix "quarantine/" key) [
    | none ↦ none
    | some rest ↦ match_folders rest
  ]

  abbrev pub dated : Rejected → Option Date → Option Date
  dated m none = none
  dated m (some when) =
      if when.year == dates.int m.year && when.month == dates.int m.month then some when else none

  abbrev pub rejected_of : Option Rejected → Option Date
  rejected_of none = none
  rejected_of (some m) = dated m (dates.strptime m.stamp)

  unfoldable pub rejected_on : String → Option Date
  rejected_on key = rejected_of (match_key key)

  -- `m.group("feed") if m else ""`
  abbrev pub feed_of : Option Rejected → String
  feed_of none = []
  feed_of (some m) = m.feed

  module _ (config : QuarantineConfig) where
    unfoldable pub keep_years : String → Result Fault ℕ
    keep_years feed =
        if truthy feed
        then elim (lookup feed config.retention_class) [
          | none ↦ config.default_years
          | some retention_class ↦ class_keep_years config.policy "quarantine" retention_class
        ]
        else config.default_years

    unfoldable pub cutoff_for : String → Result Fault Date
    cutoff_for feed = keep_years feed >>= λ years. ok (dates.day_before (seconds_of_years years))

    abbrev pub judge_against : Object → Date → QuarantineTally → Date → Result Fault QuarantineTally
    judge_against obj when tally cutoff =
        if less when cutoff
        then ok (record tally { expired = obj ∷ tally.expired })
        else ok (record tally { retained = tally.retained + 1 })

    -- The turn of the loop for one object, by the date in its key
    abbrev pub judge : Object → Option Date → QuarantineTally → Result Fault QuarantineTally
    judge obj none tally = ok (record tally { unrecognised = tally.unrecognised + 1 })
    judge obj (some when) tally =
        cutoff_for (feed_of (match_key obj.key)) >>= judge_against obj when tally

    abbrev pub nothing : QuarantineTally
    nothing = record { expired = []; retained = 0; unrecognised = 0 }

    -- The loop: an object is judged before those that follow it, so the first whose window cannot be
    -- read is the one that raises.
    unfoldable pub judge_all : List Object → Result Fault QuarantineTally
    judge_all [] = ok nothing
    judge_all (obj ∷ objects) = judge obj (rejected_on obj.key) nothing >>= λ first.
        judge_all objects >>= judge obj (rejected_on obj.key)

    abbrev pub delete_all : Bool → Result Fault QuarantineTally → QuarantineSweep
    delete_all dry_run (err fault) = record { deleted = []; tally = err fault }
    delete_all dry_run (ok tally) = record {
      deleted = if dry_run then [] else map (λ o. o.key) tally.expired;
      tally = ok tally;
    }

    unfoldable pub sweep_quarantine : Bool → List Object → QuarantineSweep
    sweep_quarantine dry_run objects =
        delete_all dry_run (config.default_years >>= λ years. judge_all objects)
