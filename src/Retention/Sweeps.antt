-- ===== src/Retention/Sweeps.antt =====
-- `_tag_age`, `expire_tags`, `expire_snapshot_tags`, `_abandoned_after_hours` and
-- `clean_working_branches` of reporting_platform/retention/retention.py, by what each of them
-- decides of one reference.
use reporting_platform_local.Common.{
  after_prefix, ℕ, ◌*◌, ◌+◌, Bool, false, Option, none, some, List, String, ◌==◌, if◌then◌else◌,
  leb, less, Result, ok, err, ◌>>=◌, Date, string_eq, nat_eq, option_eq, date_order, truthy,
  or_empty, Dict, lookup,
}
use reporting_platform_local.Retention.Windows.{
  Scalar, other, Value, scalar, Fault, missing_key, unreadable_date, TagPolicy, years_of,
  tag_retention_years,
}
use reporting_platform_local.Retention.References.{
  branch, tag, Reference, Sweep, sweep, started, match_tag, match_snapshot,
}

-- `policy["abandoned_after_hours"]`
pub data Hours : Type 0 where
  every_prefix : Scalar → Hours
  per_prefix : Dict String Scalar → Hours

-- The windows of the two prefixes that `WORKING_RE` takes
pub record WorkingWindows : Type 0 where
  pub ingest : ℕ
  pub build : ℕ

-- `timedelta(days=years * DAYS_PER_YEAR)`, in seconds
abbrev pub seconds_of_years : ℕ → ℕ
seconds_of_years years = years * 31557600

abbrev pub or_missing : Option Value → Value
or_missing none = scalar other
or_missing (some v) = v

-- The platform that a sweep runs on: `fromisoformat` with the replaced "Z", as a date and as an
-- instant in seconds; `strptime` of a date; the date of `now` less some seconds; `now` itself;
-- `int` of a value; the digits of `\d`; and how `nessie.delete_reference` raises for a name, if it
-- does.
pub record Platform : Type 0 where
  pub commit_day : String → Option Date
  pub commit_instant : String → Option ℕ
  pub strptime : String → Option Date
  pub day_before : ℕ → Date
  pub now : ℕ
  pub int : Scalar → Result Fault ℕ
  pub digit : ℕ → Bool
  pub delete_reference : String → Option Fault

module _ (platform : Platform) where
  -- `_tag_age`: the date that the tag is judged by
  unfoldable pub tag_age : Reference → Date → Date
  tag_age ref cob_date =
      let committed = or_empty ref.commit_time in
      if truthy committed
      then elim (platform.commit_day committed) [ none ↦ cob_date | some day ↦ day ]
      else cob_date

  -- A tag that a pattern matched: its window has passed.
  unfoldable pub outlived : Reference → ℕ → String → Result Fault Bool
  outlived ref years bd = elim (platform.strptime bd) [
    | none ↦ err unreadable_date
    | some cob_date ↦
        ok (less (tag_age ref cob_date) (platform.day_before (seconds_of_years years)))
  ]

  unfoldable pub tag_expired : String → TagPolicy → Reference → Result Fault Bool
  tag_expired env policy ref = elim ref.kind [
    | tag ↦ elim (match_tag platform.digit ref.name) [
      | none ↦ ok false
      | some (report, bd) ↦ do years ← tag_retention_years env policy report; outlived ref years bd
    ]
    | _ ↦ ok false
  ]

  unfoldable pub expire_tags : String → TagPolicy → Bool → List Reference → Sweep
  expire_tags env policy dry_run refs =
      sweep (tag_expired env policy) platform.delete_reference dry_run refs

  unfoldable pub snapshot_expired : ℕ → Reference → Result Fault Bool
  snapshot_expired years ref = elim ref.kind [
    | tag ↦ elim (match_snapshot platform.digit ref.name) [
      | none ↦ ok false
      | some (feed, bd) ↦ outlived ref years bd
    ]
    | _ ↦ ok false
  ]

  -- `keep_years` is that of `references.snapshot_tags`.
  unfoldable pub expire_snapshot_tags : String → Option Value → Bool → List Reference → Sweep
  expire_snapshot_tags env keep_years dry_run refs =
      started (years_of env (or_missing keep_years))
        (λ years. sweep (snapshot_expired years) platform.delete_reference dry_run refs)

  unfoldable pub window_of : Dict String Scalar → String → Result Fault ℕ
  window_of m prefix = elim (lookup prefix m) [ none ↦ err missing_key | some s ↦ platform.int s ]

  unfoldable pub abandoned_after_hours : Hours → Result Fault WorkingWindows
  abandoned_after_hours (every_prefix s) = do
    hours ← platform.int s
    ok (record { ingest = hours; build = hours })
  abandoned_after_hours (per_prefix m) = do
    ingest ← window_of m "ingest"
    build ← window_of m "build"
    ok (record { ingest = ingest; build = build })

  -- `windows[m.group(1)]`, where `WORKING_RE` matches
  unfoldable pub working_window : WorkingWindows → String → Option ℕ
  working_window windows name = elim (after_prefix "ingest/" name) [
    | some rest ↦ some windows.ingest
    | none ↦ elim (after_prefix "build/" name) [ some rest ↦ some windows.build | none ↦ none ]
  ]

  -- `not ts > now - timedelta(hours=window)`, where the commit time can be read
  unfoldable pub abandoned : ℕ → Reference → Bool
  abandoned window ref =
      let committed = or_empty ref.commit_time in
      if truthy committed
      then elim (platform.commit_instant committed) [
        | none ↦ false
        | some instant ↦ leb (instant + window * 3600) platform.now
      ]
      else false

  unfoldable pub branch_expired : WorkingWindows → Reference → Result Fault Bool
  branch_expired windows ref = elim ref.kind [
    | branch ↦ elim (working_window windows ref.name) [
      | none ↦ ok false
      | some window ↦ if ref.commits_ahead == some 0 then ok false else ok (abandoned window ref)
    ]
    | _ ↦ ok false
  ]

  unfoldable pub clean_working_branches : Hours → Bool → List Reference → Sweep
  clean_working_branches hours dry_run refs =
      started (abandoned_after_hours hours)
        (λ windows. sweep (branch_expired windows) platform.delete_reference dry_run refs)
