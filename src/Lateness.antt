-- ===== src/Lateness.antt =====
-- reporting_platform/monitoring/lateness.py: deliveries that arrived after their deadline. Instants
-- are seconds; the start of a date, the date of an instant and `int` of a text are parameters.
pub mod Deadlines
pub mod BulkLoads
use Prim.Native.Char.{code}
use Prim.Native.String.{String, [], ◌∷◌}
use reporting_platform_local.Common.{
  ℕ, zero, suc, ◌+◌, ◌-◌, ◌*◌, min, Bool, true, false, not, ◌&&◌, Option, none, some, List, [], ◌∷◌,
  map, filter, reverse, take, length, sort, to_set, ◌==◌, if◌then◌else◌, ltb, Dict, keys, lookup,
  truthy, Date, date_eq, date_order, string_eq, nat_eq, text_order,
}

-- `registry.delivery`, as far as the check reads it
pub record Delivery : Type 0 where
  pub feed : String
  pub cob_date : Date
  pub received_at : ℕ

-- A row of the query: a COB date of the feed, its first arrival and how often it was delivered
pub record Arrival : Type 0 where
  pub cob_date : Date
  pub first_arrival : ℕ
  pub deliveries : ℕ

-- A finding
pub record Late : Type 0 where
  pub cob_date : Date
  pub due : ℕ
  pub arrived : ℕ
  pub seconds_late : ℕ
  pub deliveries : ℕ

pub record Entry : Type 0 where
  pub feed : String
  pub expected_by : String
  pub dates_checked : ℕ
  pub late : List Late
  pub bulk_load : Bool
  pub distinct_arrival_days : ℕ

pub record Report : Type 0 where
  pub feeds : List Entry
  pub total_late : ℕ
  pub bulk_loads : List String
  pub skipped_feeds : List String

-- `expected_by.split(":")`
unfoldable pub split_clock : String → String × String
split_clock [] = ([], [])
split_clock (c ∷ s) =
    let (hh, mm) = split_clock s in if code c == 0x3a then ([], s) else (c ∷ hh, mm)

pub record Clock : Type 0 where
  pub midnight : Date → ℕ
  pub day_of : ℕ → Date
  pub int : String → ℕ

abbrev pub earliest : ℕ → List Delivery → ℕ
earliest at [] = at
earliest at (d ∷ ds) = min d.received_at (earliest at ds)

-- `MIN(received_at)` and `COUNT(*)` of a group that is not empty
abbrev pub arrival_of : Date → List Delivery → Arrival
arrival_of cob_date [] = record { cob_date = cob_date; first_arrival = 0; deliveries = 0 }
arrival_of cob_date (d ∷ ds) = record {
  cob_date = cob_date;
  first_arrival = earliest d.received_at ds;
  deliveries = suc (length ds);
}

-- The deliveries of a feed for a date
unfoldable pub group : List Delivery → String → Date → List Delivery
group deliveries feed cob_date = filter (λ d. d.feed == feed && d.cob_date == cob_date) deliveries

-- `GROUP BY cob_date ORDER BY cob_date DESC LIMIT %s`
unfoldable pub recent_dates : List Delivery → String → ℕ → List Date
recent_dates deliveries feed lookback =
    take lookback
      (reverse (sort (to_set (map (λ d. d.cob_date) (filter (λ d. d.feed == feed) deliveries)))))

unfoldable pub recent_arrivals : List Delivery → String → ℕ → List Arrival
recent_arrivals deliveries feed lookback =
    map (λ cob_date. arrival_of cob_date (group deliveries feed cob_date))
      (recent_dates deliveries feed lookback)

module _ (clock : Clock) where
  unfoldable pub deadline : Date → String → ℕ
  deadline cob_date expected_by =
      let (hh, mm) = split_clock expected_by in
      clock.midnight cob_date + 86400 + clock.int hh * 3600 + clock.int mm * 60

  unfoldable pub arrival_days : List Late → List Date
  arrival_days late = to_set (map (λ x. clock.day_of x.arrived) late)

  unfoldable pub is_bulk_load : List Late → Bool
  is_bulk_load late = ltb 1 (length late) && length (arrival_days late) == 1

  -- The findings of one feed, in the order of the rows
  unfoldable pub late_arrivals : String → List Arrival → List Late
  late_arrivals expected_by [] = []
  late_arrivals expected_by (row ∷ rows) =
      let due = deadline row.cob_date expected_by in
      let rest = late_arrivals expected_by rows in
      if ltb due row.first_arrival
      then record {
        cob_date = row.cob_date;
        due = due;
        arrived = row.first_arrival;
        seconds_late = row.first_arrival - due;
        deliveries = row.deliveries;
      }
        ∷ rest
      else rest

  unfoldable pub feed_entry : List Delivery → ℕ → String → String → Entry
  feed_entry deliveries lookback name expected_by =
      let rows = recent_arrivals deliveries name lookback in
      let late = late_arrivals expected_by rows in
      record {
        feed = name;
        expected_by = expected_by;
        dates_checked = length rows;
        late = late;
        bulk_load = is_bulk_load late;
        distinct_arrival_days = length (arrival_days late);
      }

  abbrev pub add_feed : Entry → Report → Report
  add_feed entry report = record report {
    feeds = entry ∷ report.feeds;
    total_late = length entry.late + report.total_late;
    bulk_loads = if entry.bulk_load then entry.feed ∷ report.bulk_loads else report.bulk_loads;
  }

  -- `expected_by` of each feed, which is empty where the feed has declared none
  unfoldable pub check_feeds : List Delivery → ℕ → Dict String String → List String → Report
  check_feeds deliveries lookback expected [] = record {
    feeds = [];
    total_late = 0;
    bulk_loads = [];
    skipped_feeds = [];
  }
  check_feeds deliveries lookback expected (name ∷ names) =
      let rest = check_feeds deliveries lookback expected names in
      elim (lookup name expected) [
        | none ↦ rest
        | some expected_by ↦
            if truthy expected_by
            then add_feed (feed_entry deliveries lookback name expected_by) rest
            else record rest { skipped_feeds = name ∷ rest.skipped_feeds }
      ]

  unfoldable pub run : List Delivery → ℕ → Dict String String → Report
  run deliveries lookback expected = check_feeds deliveries lookback expected (sort (keys expected))

-- `main`
unfoldable pub exit_code : Bool → Report → ℕ
exit_code fail_on_late report = if fail_on_late && not (report.total_late == 0) then 1 else 0
