-- ===== src/Tests/Calendar.antt =====
-- The calendar rules on a small history: two closed months and one in progress.
use reporting_platform_local.Common.{
  ℕ, true, false, none, some, List, [], ◌∷◌, ◌≡◌, refl, ◌&&◌, ◌||◌, not, contains, ltb, Date,
  date_eq, date_order, month_order, pair_eq, nat_eq, lookup, insert, erase, ℕ_discrete,
}
use reporting_platform_local.Calendar.{
  month_end_dates, month_end_quota, keep_set, expire_set, Policy,
}
use reporting_platform_local.Calendar.MonthEnds.{
  later_in_month, later_month, contains-month_end_dates,
}
use reporting_platform_local.Calendar.KeepSet.{
  dates_after, is_month_end, month_ends_after, contains-keep_set,
}
use reporting_platform_local.Calendar.Idempotence.{sweep, sweep_idem}

abbrev date : ℕ → ℕ → ℕ → Date
date y m d = record { year = y; month = m; day = d }

abbrev history : List Date
history =
    date 2026 8 3
    ∷ date 2026 6 29
    ∷ date 2026 6 30
    ∷ date 2026 7 30
    ∷ date 2026 7 31
    ∷ date 2026 6 30
    ∷ []

abbrev policy : Policy
policy = record {
  keep_business_days = some 1;
  keep_month_ends = some 1;
  keep_month_ends_years = none;
}

-- What a test by evaluation unfolds.
program : Unit {0}
unfolding expire_set keep_set month_end_dates date_eq date_order month_order pair_eq nat_eq lookup
    insert erase ℕ_discrete
program = tt

month_end_dates-history : month_end_dates history false ≡ date 2026 6 30 ∷ date 2026 7 31 ∷ []
unfolding program
month_end_dates-history = refl

keep_set-history : keep_set history 1 1 none ≡ date 2026 8 3 ∷ date 2026 7 31 ∷ []
unfolding program
keep_set-history = refl

contains-keep_set_example : contains (keep_set history 1 1 none) (date 2026 7 31) ≡ (
    contains history (date 2026 7 31) && ltb (dates_after history (date 2026 7 31)) 1
    || is_month_end history (date 2026 7 31)
      && ltb (month_ends_after history (date 2026 7 31)) (month_end_quota 1 none))
contains-keep_set_example = contains-keep_set history 1 1 none (date 2026 7 31)

contains-month_end_dates_example : contains (month_end_dates history false) (date 2026 7 31) ≡ (
    contains history (date 2026 7 31)
    && not (later_in_month history (date 2026 7 31))
    && (false || later_month history (date 2026 7 31)))
contains-month_end_dates_example = contains-month_end_dates history false (date 2026 7 31)

last_of_july : contains history (date 2026 7 31) ≡ true
unfolding program
last_of_july = refl

nothing_later : later_in_month history (date 2026 7 31) ≡ false
unfolding program
nothing_later = refl

within_quota : ltb (month_ends_after history (date 2026 7 31)) (month_end_quota 1 none) ≡ true
unfolding program
within_quota = refl

sweep_idem_example : contains (expire_set (sweep history policy) policy) (date 2026 7 31) ≡ false
sweep_idem_example = sweep_idem history policy 0 (date 2026 7 31) refl
