-- ===== src/Calendar/MonthEnds.antt =====
-- What `month_end_dates` returns, said of the observed dates alone.
use reporting_platform_local.Common.{
  Bool, Bool-cases, ==_refl, true, false, not, ◌&&◌, ◌||◌, none, some, List, [], ◌∷◌, ◌≡◌, refl,
  sym, ap, ◌∙◌, arith, ◌==◌, contains, any, any_of_contains, any_witness, less, less_connected,
  Option-cases, inl, inr, maximum, contains-maximum, maximum_ge, contains-sort, date_order,
  month_order, Date, Month, month_of, Dict, keys, values, lookup, erase, lookup-erase, date_eq,
  pair_eq, nat_eq,
}
use reporting_platform_local.Calendar.{group, drop_newest, month_end_dates}
use reporting_platform_local.Calendar.ByMonth.{
  latest_in_lem, holds, above, lookup-group, group-IsByMonth, contains-values, IsByMonth,
  keys-group, erase-IsByMonth,
}

-- Some observed date in the month of `d` comes after `d`.
abbrev pub later_in_month : List Date → Date → Bool
later_in_month dates d = any (λ e. month_of d == month_of e && less d e) dates

-- Some observed date lies in a month after that of `d`.
abbrev pub later_month : List Date → Date → Bool
later_month dates d = any (λ e. less (month_of d) (month_of e)) dates

last_in_month : List Date → Date → Bool
last_in_month dates d = contains dates d && not (later_in_month dates d)

values_of_no_key :
    (m : Dict Month Date) (d : Date) → maximum (keys m) ≡ none → contains (values m) d ≡ false
values_of_no_key [] d h = refl
values_of_no_key (e ∷ m) d h = absurd (cc)

module _ (dates : List Date) where
  abbrev by_month : Dict Month Date
  by_month = group [] dates

  IsByMonth-by_month : IsByMonth by_month
  IsByMonth-by_month = group-IsByMonth [] dates (record { one_each = tt; in_month = tt })

  holds-by_month :
      (k : Month) (d : Date)
      → holds (lookup k by_month) d ≡ (
          (contains dates d && k == month_of d)
          && not (any (λ e. k == month_of e && less d e) dates))
  unfolding lookup holds above
  holds-by_month k d = ap (λ o. holds o d) (lookup-group k [] dates) ∙ latest_in_lem k none dates d

  contains-by_month : (d : Date) → contains (values by_month) d ≡ last_in_month dates d
  unfolding last_in_month
  contains-by_month d =
      let inv = IsByMonth-by_month in
      ground
        (arith, contains-values by_month d inv.one_each inv.in_month, holds-by_month (month_of d) d)

  observed_month :
      (e : Date) → contains dates e ≡ true → contains (keys by_month) (month_of e) ≡ true
  observed_month e h =
      keys-group (month_of e) [] dates
      ∙ any_of_contains (λ x. month_of e == month_of x) dates e h (==_refl (month_of e))

  -- The month that `drop_newest` takes out has no later month, and all others have.
  newest_lem :
      (k : Month) (d : Date)
      → maximum (keys by_month) ≡ some k
      → contains dates d ≡ true
      → (month_of d == k) ≡ not (later_month dates d)
  newest_lem k d top seen = elim (Bool-cases (later_month dates d)) [
    | inl later ↦
        let (e, m, below) = any_witness (λ x. less (month_of d) (month_of x)) dates later in
        let max = maximum_ge (keys by_month) k (month_of e) top (observed_month e m) in
        rw later (ground (arith, max, below))
    | inr last ↦
        let key = sym (keys-group k [] dates) ∙ contains-maximum (keys by_month) k top in
        let (e, m, at) = any_witness (λ x. k == month_of x) dates key in
        let max = maximum_ge (keys by_month) k (month_of d) top (observed_month d seen) in
        let over = any_of_contains (λ x. less (month_of d) (month_of x)) dates e m in
        rw last (ground (arith, max, at, over, less_connected k (month_of d)))
  ]

  contains-drop_newest :
      (d : Date)
      → contains (values (drop_newest by_month)) d ≡ (last_in_month dates d && later_month dates d)
  unfolding drop_newest last_in_month holds
  contains-drop_newest d = elim (Option-cases (maximum (keys by_month))) [
    | inl none_left ↦
        rw (none_left, drop_newest)
          (ground (arith, values_of_no_key by_month d none_left, contains-by_month d))
    | inr (k, top) ↦
        let inv = erase-IsByMonth k by_month IsByMonth-by_month in
        rw (top, drop_newest)
          (ground (
            arith,
            contains-values (erase k by_month) d inv.one_each inv.in_month,
            lookup-erase (month_of d) k by_month,
            holds-by_month (month_of d) d,
            newest_lem k d top,
          ))
  ]

-- `month_end_dates` returns exactly the observed dates that are the last of their month, and
-- unless the current month is included, only of a month after which another has been observed.
pub contains-month_end_dates :
    (dates : List Date) (include_current : Bool) (d : Date)
    → contains (month_end_dates dates include_current) d ≡ (
        contains dates d
        && not (later_in_month dates d)
        && (include_current || later_month dates d))
unfolding month_end_dates last_in_month
contains-month_end_dates dates true d =
    ground (arith, contains-sort (values (group [] dates)) d, contains-by_month dates d)
contains-month_end_dates dates false d =
    ground
      (arith, contains-sort (values (drop_newest (group [] dates))) d, contains-drop_newest dates d)
