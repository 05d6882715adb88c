-- ===== src/Migration/Acceptance.antt =====
-- reporting_platform/migration/acceptance.py: cutover readiness from the recorded comparisons.
use reporting_platform_local.Common.{
  ℕ, zero, suc, Bool, true, false, Option, none, some, List, [], ◌∷◌, reverse, String,
  if◌then◌else◌, ltb, leb, length, take_last, sort, Dict, keys, lookup, insert, Date, date_eq,
  date_order,
}
use reporting_platform_local.Migration.Comparators.{Outcome, pass, warn}

-- A row of registry.migration_comparison, as far as acceptance reads it
pub record Comparison : Type 0 where
  pub business_date : Date
  pub executed_at : ℕ
  pub outcome : Outcome
  pub checkpoint : String
  pub comparison_id : String

-- One turn of the loop of `_latest_per_date`
unfoldable pub record_run : Dict Date Comparison → Comparison → Dict Date Comparison
record_run by_date row = elim (lookup row.business_date by_date) [
  | none ↦ insert row.business_date row by_date
  | some existing ↦
      if ltb existing.executed_at row.executed_at
      then insert row.business_date row by_date
      else by_date
]

unfoldable pub by_business_date : Dict Date Comparison → List Comparison → Dict Date Comparison
unfolding record_run
by_business_date by_date [] = by_date
by_business_date by_date (row ∷ rows) = by_business_date (record_run by_date row) rows

-- `[by_date[bd] for bd in sorted(by_date)]`; every key that is asked for is there.
abbrev pub look_up_all : Dict Date Comparison → List Date → List Comparison
look_up_all by_date [] = []
look_up_all by_date (bd ∷ bds) =
    let rest = look_up_all by_date bds in
    elim (lookup bd by_date) [ none ↦ rest | some row ↦ row ∷ rest ]

unfoldable pub latest_per_date : List Comparison → List Comparison
unfolding by_business_date
latest_per_date comparisons =
    let by_date = by_business_date [] comparisons in look_up_all by_date (sort (keys by_date))

-- A feed's acceptance policy; an absent key has the default of `policy.get`.
pub record Acceptance : Type 0 where
  pub consecutive_successes : Option ℕ
  pub allow_warnings : Option Bool

abbrev pub or_default {ℓ} : {A : Type ℓ} → Option A → A → A
or_default none d = d
or_default (some a) d = a

abbrev pub is_success : Bool → Outcome → Bool
is_success allow_warnings pass = true
is_success allow_warnings warn = allow_warnings
is_success allow_warnings _ = false

-- The walk from the most recent date backwards: the streak, and the row that broke it.
unfoldable pub walk : Bool → List Comparison → ℕ × Option Comparison
walk allow_warnings [] = (0, none)
walk allow_warnings (row ∷ rows) =
    let (streak, blocking) = walk allow_warnings rows in
    if is_success allow_warnings row.outcome then (suc streak, blocking) else (0, some row)

pub data Status : Type 0 where
  ready not_ready not_started : Status

-- The dict that `_evaluate` returns, with the row that its reasons quote for their text.
pub record Evaluation : Type 0 where
  pub status : Status
  pub required : ℕ
  pub streak : ℕ
  pub evidence_count : ℕ
  pub blocking_break : Option Comparison
  pub recent : List Comparison

-- `comparisons[-required:]`, which for 0 is the whole list
abbrev pub last_rows : ℕ → List Comparison → List Comparison
last_rows zero rows = rows
last_rows (suc n) rows = take_last (suc n) rows

abbrev pub evaluate_rows : ℕ → Bool → List Comparison → Evaluation
evaluate_rows required allow_warnings [] = record {
  status = not_started;
  required = required;
  streak = 0;
  evidence_count = 0;
  blocking_break = none;
  recent = [];
}
evaluate_rows required allow_warnings (r ∷ rs) =
    let rows = r ∷ rs in
    let (streak, blocking) = walk allow_warnings (reverse rows) in
    record {
      status = if leb required streak then ready else not_ready;
      required = required;
      streak = streak;
      evidence_count = length rows;
      blocking_break = blocking;
      recent = last_rows required rows;
    }

unfoldable pub evaluate : List Comparison → Acceptance → Evaluation
evaluate comparisons policy =
    evaluate_rows (or_default policy.consecutive_successes 10)
      (or_default policy.allow_warnings false) (latest_per_date comparisons)
