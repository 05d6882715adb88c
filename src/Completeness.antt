-- ===== src/Completeness.antt =====
-- reporting_platform/monitoring/completeness.py: the dates that are missing from a feed's history.
-- A feed's dates are a list without duplicates. `date.isocalendar` is a parameter; the text of a
-- missing period is its date or its week.
pub mod Gaps
pub mod ExitCode
use reporting_platform_local.Common.{
  ℕ, zero, suc, ◌+◌, Bool, true, false, not, ◌&&◌, ◌||◌, Option, none, some, List, [], ◌∷◌, ◌++◌,
  map, String, ◌==◌, if◌then◌else◌, less, filter, contains, difference, to_set, sort, length,
  take_last, Dict, keys, values, lookup, Date, string_eq, nat_eq, date_eq, pair_eq, pair_order,
  nat_order, text_order, date_order,
}

pub data Period : Type 0 where
  on : Date → Period
  week : ℕ × ℕ → Period

pub data Status : Type 0 where
  complete gaps no_data never_delivered no_table unreadable : Status

-- One item of `report["feeds"]`; the fields that an item does not have are empty.
pub record Entry : Type 0 where
  pub feed : String
  pub status : Status
  pub cadence : Option String
  pub observed : ℕ
  pub expected : ℕ
  pub missing : List Period
  pub error : Option String

pub record Report : Type 0 where
  pub cob_dates_in_window : ℕ
  pub feeds : List Entry
  pub total_missing : ℕ
  pub unreadable_feeds : List String
  pub feeds_without_a_table : List String
  pub feeds_never_delivered : List String

-- The arguments of `find_gaps` after the first
pub record Context : Type 0 where
  pub lookback : ℕ
  pub cadence : Dict String String
  pub unreadable : Dict String String
  pub absent : Dict String String
  pub never_delivered : List String
  pub registry_error : Option String

abbrev pub all_dates : List (List Date) → List Date
all_dates [] = []
all_dates (ds ∷ dss) = ds ++ all_dates dss

-- `calendar[-lookback:] if lookback else calendar`, of every date that some feed delivered on
unfoldable pub window : ℕ → Dict String (List Date) → List Date
window zero per_feed = sort (to_set (all_dates (values per_feed)))
window (suc n) per_feed = take_last (suc n) (sort (to_set (all_dates (values per_feed))))

-- `min(dates)` and `max(dates)` of dates that begin with `d`
unfoldable pub first_date : Date → List Date → Date
first_date d [] = d
first_date d (e ∷ ds) = let rest = first_date e ds in if less d rest then d else rest

unfoldable pub last_date : Date → List Date → Date
last_date d [] = d
last_date d (e ∷ ds) = let rest = last_date e ds in if less rest d then d else rest

-- `first <= d <= last`
abbrev pub between : Date → Date → Date → Bool
between first last d = not (less d first) && not (less last d)

-- `dates & window`
abbrev pub within : List Date → List Date → List Date
within dates window = filter (contains dates) window

abbrev pub unreported : Status → Option String → String → Entry
unreported status error name = record {
  feed = name;
  status = status;
  cadence = none;
  observed = 0;
  expected = 0;
  missing = [];
  error = error;
}

-- `"gaps" if missing else "complete"`
abbrev pub status_of : List Period → Status
status_of [] = complete
status_of (p ∷ ps) = gaps

abbrev pub or_daily : Option String → String
or_daily none = "daily"
or_daily (some how) = how

-- A feed whose table is there and empty
abbrev pub empty_entry : Context → String → Entry
empty_entry context name =
    if contains context.never_delivered name
    then unreported never_delivered none name
    else unreported no_data context.registry_error name

-- `sorted(d.items())`, an entry for each
abbrev pub entries : {V : Type 0} → (String → V → Entry) → Dict String V → List String → List Entry
entries f d [] = []
entries f d (name ∷ names) =
    let rest = entries f d names in elim (lookup name d) [ none ↦ rest | some v ↦ f name v ∷ rest ]

abbrev pub sum_missing : List Entry → ℕ
sum_missing [] = 0
sum_missing (e ∷ es) = length e.missing + sum_missing es

abbrev pub is_empty_feed : Dict String (List Date) → String → Bool
is_empty_feed per_feed name = elim (lookup name per_feed) [ some [] ↦ true | _ ↦ false ]

module _ (iso_week : Date → ℕ × ℕ) where
  -- A feed with dates: its missing days
  unfoldable pub daily_entry : String → String → List Date → Date → List Date → Entry
  daily_entry name how window d ds =
      let dates = d ∷ ds in
      let expected = filter (between (first_date d ds) (last_date d ds)) window in
      let missing = sort (difference expected dates) in
      record {
        feed = name;
        status = status_of (map on missing);
        cadence = some how;
        observed = length (within dates window);
        expected = length expected;
        missing = map on missing;
        error = none;
      }

  -- The same, by ISO weeks
  unfoldable pub weekly_entry : String → String → List Date → Date → List Date → Entry
  weekly_entry name how window d ds =
      let expected = filter (between (first_date d ds) (last_date d ds)) window in
      let weeks = to_set (map iso_week expected) in
      let got = to_set (map iso_week (d ∷ ds)) in
      let missing = sort (difference weeks got) in
      record {
        feed = name;
        status = status_of (map week missing);
        cadence = some how;
        observed = length (filter (contains got) weeks);
        expected = length weeks;
        missing = map week missing;
        error = none;
      }

  unfoldable pub feed_entry : Context → List Date → String → List Date → Entry
  feed_entry context window name [] = empty_entry context name
  feed_entry context window name (d ∷ ds) =
      let how = or_daily (lookup name context.cadence) in
      if how == "weekly"
      then weekly_entry name how window d ds
      else daily_entry name how window d ds

  unfoldable pub find_gaps : Dict String (List Date) → Context → Report
  find_gaps per_feed context =
      let span = window context.lookback per_feed in
      let feeds =
        entries (λ name why. unreported unreadable (some why) name) context.unreadable
          (sort (keys context.unreadable))
        ++ (entries (λ name why. unreported no_table (some why) name) context.absent
              (sort (keys context.absent))
            ++ entries (feed_entry context span) per_feed (sort (keys per_feed))) in
      record {
        cob_dates_in_window = length span;
        feeds = feeds;
        total_missing = sum_missing feeds;
        unreadable_feeds = sort (keys context.unreadable);
        feeds_without_a_table = sort (keys context.absent);
        feeds_never_delivered = sort (filter (is_empty_feed per_feed) context.never_delivered);
      }

abbrev pub is_none : List String → Bool
is_none [] = true
is_none (name ∷ names) = false

-- The exit code of `main`
unfoldable pub exit_code : Bool → Report → ℕ
exit_code fail_on_gap report =
    if fail_on_gap && (not (report.total_missing == 0) || not (is_none report.unreadable_feeds))
    then 1
    else 0
