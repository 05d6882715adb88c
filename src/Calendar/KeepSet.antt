-- ===== src/Calendar/KeepSet.antt =====
-- What `keep_set` keeps, by how many observed dates and month-ends come after a date.
use reporting_platform_local.Common.{
  Option-cases, inl, inr, ℕ, zero, suc, ◌-◌, Bool, false, not, ◌&&◌, ◌||◌, Option, List, [], ◌∷◌,
  ◌++◌, ◌≡◌, refl, ◌∙◌, arith, ltb, ◌==◌, contains, count, length, to_set, contains-to_set,
  contains-append, less, sort, contains-sort, count-sort, contains-drop, IsAscending, IsNodup,
  sort-to_set-IsAscending, sort-IsAscending, IsAscending-ext, any_cong, date_order, date_eq,
  month_order, Date, Month, month_of, Dict, values, IsDict, pair_eq, nat_eq, keys, maximum,
}
use reporting_platform_local.Calendar.{
  group, drop_newest, month_end_dates, newest, month_end_quota, keep_set,
}
use reporting_platform_local.Calendar.ByMonth.{
  IsByMonth, InMonth, group-IsByMonth, erase-IsByMonth, contains-values, holds,
}
use reporting_platform_local.Calendar.MonthEnds.{
  later_in_month, later_month, contains-month_end_dates,
}

-- The number of distinct observed dates after `d`.
abbrev pub dates_after : List Date → Date → ℕ
dates_after observed d = count (less d) (to_set observed)

-- The last observed date of a month after which another month has been observed.
abbrev pub is_month_end : List Date → Date → Bool
is_month_end observed d =
    contains observed d && not (later_in_month observed d) && later_month observed d

-- The number of month-ends after `d`.
abbrev pub month_ends_after : List Date → Date → ℕ
month_ends_after observed d = count (less d) (month_end_dates observed false)

values-IsNodup : (m : Dict Month Date) → IsDict m → InMonth m → IsNodup (values m)
unfolding holds
values-IsNodup [] u h = tt
values-IsNodup ((k, d) ∷ m) (u, us) (h, hs) =
    ground (arith, values-IsNodup m us hs, contains-values m d us hs)

drop_newest-IsByMonth : (m : Dict Month Date) → IsByMonth m → IsByMonth (drop_newest m)
unfolding drop_newest
drop_newest-IsByMonth m h = elim (Option-cases (maximum (keys m))) [
  | inl e ↦ rw (e, drop_newest) h
  | inr (k, e) ↦ rw (e, drop_newest) (erase-IsByMonth k m h)
]

pub month_end_dates-IsAscending : (dates : List Date) → IsAscending (month_end_dates dates false)
unfolding month_end_dates
month_end_dates-IsAscending dates =
    let inv =
      drop_newest-IsByMonth (group [] dates)
        (group-IsByMonth [] dates (record { one_each = tt; in_month = tt })) in
    sort-IsAscending (values (drop_newest (group [] dates)))
      (values-IsNodup (drop_newest (group [] dates)) inv.one_each inv.in_month)

contains_sorted : (ds : List Date) (d : Date) → contains (sort (to_set ds)) d ≡ contains ds d
contains_sorted ds d = contains-sort (to_set ds) d ∙ contains-to_set ds d

-- Sorting the dates and taking out duplicates changes no month-end.
month_end_dates-sort :
    (dates : List Date) → month_end_dates (sort (to_set dates)) false ≡ month_end_dates dates false
month_end_dates-sort dates =
    let ascending = month_end_dates-IsAscending in
    IsAscending-ext (month_end_dates (sort (to_set dates)) false) (month_end_dates dates false)
      (ascending (sort (to_set dates))) (ascending dates)
      λ d. ground (
        arith,
        contains-month_end_dates (sort (to_set dates)) false d,
        contains-month_end_dates dates false d,
        contains_sorted dates d,
        any_cong (λ e. month_of d == month_of e && less d e) (sort (to_set dates)) dates
            (contains_sorted dates),
        any_cong (λ e. less (month_of d) (month_of e)) (sort (to_set dates)) dates
            (contains_sorted dates),
      )

contains-newest :
    (n : ℕ) (xs : List Date) (d : Date)
    → IsAscending xs
    → contains (newest n xs) d ≡ (contains xs d && ltb (count (less d) xs) n)
unfolding newest
contains-newest zero xs d h = ground arith
contains-newest (suc n) xs d h = ground (arith, contains-drop (length xs - suc n) xs d h)

-- A date is kept exactly when it was observed and either fewer than `keep_business_days` distinct
-- observed dates come after it, or it is a month-end after which fewer month-ends come than the
-- quota allows.
pub contains-keep_set :
    (observed : List Date) (keep_business_days keep_month_ends : ℕ)
    (keep_month_ends_years : Option ℕ) (d : Date)
    → contains (keep_set observed keep_business_days keep_month_ends keep_month_ends_years) d ≡ (
        contains observed d && ltb (dates_after observed d) keep_business_days
        || is_month_end observed d
          && ltb
              (month_ends_after observed d)
              (month_end_quota keep_month_ends keep_month_ends_years))
unfolding keep_set
contains-keep_set [] b m y d = refl
contains-keep_set (x ∷ xs) b m y d =
    let observed = x ∷ xs in
    let dates = sort (to_set observed) in
    let n = month_end_quota m y in
    let ends = month_end_dates dates false in
    ground (
      arith,
      contains-to_set (newest b dates ++ newest n ends) d,
      contains-append (newest b dates) (newest n ends) d,
      contains-newest b dates d (sort-to_set-IsAscending observed),
      contains-newest n ends d (month_end_dates-IsAscending dates),
      month_end_dates-sort observed,
      contains_sorted observed d,
      count-sort (less d) (to_set observed),
      contains-month_end_dates observed false d,
    )
