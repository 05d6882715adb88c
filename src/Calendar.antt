-- ===== src/Calendar.antt =====
-- reporting_platform/common/calendar_rules.py: the COB dates that a keep-set policy retains.
-- A set of dates is a list with no duplicates; a policy's numbers are the natural numbers.
pub mod ByMonth
pub mod MonthEnds
pub mod KeepSet
pub mod Sweeps
pub mod Idempotence
use reporting_platform_local.Common.{
  ℕ, zero, suc, ◌*◌, max, Bool, true, false, not, ◌&&◌, Option, none, some, List, [], ◌∷◌, ◌++◌,
  if◌then◌else◌, to_set, difference, take_last, less, maximum, sort, Date, Month, month_of, Dict,
  keys, values, lookup, insert, erase, nat_eq, pair_eq, date_eq, month_order, date_order,
}

-- One turn of the loop: `if key not in by_month or d > by_month[key]: by_month[key] = d`
unfoldable pub record_date : Dict Month Date → Date → Dict Month Date
record_date m d = elim (lookup (month_of d) m) [
  | none ↦ insert (month_of d) d m
  | some e ↦ if less e d then insert (month_of d) d m else m
]

unfoldable pub group : Dict Month Date → List Date → Dict Month Date
unfolding record_date
group m [] = m
group m (d ∷ ds) = group (record_date m d) ds

-- `del by_month[max(by_month)]`, on a dict that is not empty
unfoldable pub drop_newest : Dict Month Date → Dict Month Date
drop_newest m = elim (maximum (keys m)) [ none ↦ m | some k ↦ erase k m ]

unfoldable pub month_end_dates : List Date → Bool → List Date
unfolding group drop_newest
month_end_dates dates include_current =
    let by_month = group [] dates in
    sort (values (if include_current then by_month else drop_newest by_month))

-- `if n: keep.update(dates[-n:])`
unfoldable pub newest : ℕ → List Date → List Date
newest zero dates = []
newest (suc n) dates = take_last (suc n) dates

-- `n_month_ends`, with the alternative in years
unfoldable pub month_end_quota : ℕ → Option ℕ → ℕ
month_end_quota keep_month_ends none = keep_month_ends
month_end_quota keep_month_ends (some zero) = keep_month_ends
month_end_quota keep_month_ends (some (suc y)) = max keep_month_ends (suc y * 12)

unfoldable pub keep_set : List Date → ℕ → ℕ → Option ℕ → List Date
unfolding month_end_dates newest month_end_quota
keep_set [] keep_business_days keep_month_ends keep_month_ends_years = []
keep_set (o ∷ os) keep_business_days keep_month_ends keep_month_ends_years =
    let dates = sort (to_set (o ∷ os)) in
    let n_month_ends = month_end_quota keep_month_ends keep_month_ends_years in
    to_set (newest keep_business_days dates ++ newest n_month_ends (month_end_dates dates false))

-- The keys of a policy that `expire_set` reads; an absent key has the default of `policy.get`.
pub record Policy : Type 0 where
  pub keep_business_days : Option ℕ
  pub keep_month_ends : Option ℕ
  pub keep_month_ends_years : Option ℕ

abbrev pub default : Option ℕ → ℕ → ℕ
default none d = d
default (some n) d = n

unfoldable pub expire_set : List Date → Policy → List Date
unfolding keep_set
expire_set observed policy =
    let keep =
      keep_set observed (default policy.keep_business_days 0) (default policy.keep_month_ends 0)
        policy.keep_month_ends_years in
    difference (to_set observed) keep
