-- ===== src/Calendar/Idempotence.antt =====
-- A sweep by `expire_set` is stable: with no new data a second one removes nothing more.
use reporting_platform_local.Common.{
  ℕ, suc, ◌≤◌, true, false, not, ◌&&◌, Option, some, List, [], ◌∷◌, ◌≡◌, refl, ap, ◌∙◌, arith, ◌==◌,
  Bool-cases, inl, inr, contains, to_set, contains-to_set, contains-filter, difference,
  any_of_contains, any_witness, less, less_trans, less_connected, maximum, contains-maximum,
  maximum_ge, IsSubset, to_set-IsNodup, count_mono, any_mono, date_order, date_eq, month_order,
  Date, month_of, pair_eq, nat_eq, IsAscending-IsNodup,
}
use reporting_platform_local.Calendar.{month_end_dates, keep_set, expire_set, Policy, default}
use reporting_platform_local.Calendar.MonthEnds.{
  later_in_month, later_month, contains-month_end_dates,
}
use reporting_platform_local.Calendar.KeepSet.{
  dates_after, is_month_end, month_ends_after, contains-keep_set, month_end_dates-IsAscending,
}
use reporting_platform_local.Calendar.Sweeps.{
  kept, contains-expire_set, expire_set_partition, dates_after_none, less_of_month, count_le_of_imp,
}

maximum_of_contains :
    (xs : List Date) (d : Date) → contains xs d ≡ true → (t : Date) × (maximum xs ≡ some t)
maximum_of_contains [] d h = absurd (cc)
maximum_of_contains (x ∷ xs) d h = (_, refl)

-- The dates left over when those of `keep` alone remain, for a policy that keeps a business day.
module _ (observed left : List Date) (b m : ℕ) (y : Option ℕ)
    (same : (d : Date) → contains left d ≡ contains (keep_set observed (suc b) m y) d) where
  left-subset : IsSubset left observed
  left-subset d h = ground (arith, same d, contains-keep_set observed (suc b) m y d)

  dates_after-left : (d : Date) → dates_after left d ≤ dates_after observed d
  dates_after-left d =
      count_mono (less d) (to_set observed) (to_set left) (to_set-IsNodup left)
        (λ a h. ground (arith, contains-to_set left a, contains-to_set observed a, left-subset a))

  dates_after_mono :
      (d e : Date) → less d e ≡ true → dates_after observed e ≤ dates_after observed d
  dates_after_mono d e h =
      count_le_of_imp (less e) (less d) (to_set observed) (λ a k. less_trans d e a h k)

  -- The newest observed date is left.
  newest_left :
      (d : Date)
      → contains observed d ≡ true
      → (t : Date) × (contains left t ≡ true) × (less t d ≡ false)
  newest_left d h =
      let (t, top) = maximum_of_contains observed d h in
      let last = dates_after_none observed t (λ a m. maximum_ge observed t a top m) in
      (
        t,
        ground (
          arith,
          same t,
          last,
          contains-keep_set observed (suc b) m y t,
          contains-maximum observed t top,
        ),
        maximum_ge observed t d top h,
      )

  later_month-left : (d : Date) → later_month observed d ≡ true → later_month left d ≡ true
  later_month-left d h =
      let (e, m, below) = any_witness (λ x. less (month_of d) (month_of x)) observed h in
      let (t, k, top) = newest_left e m in
      any_of_contains (λ x. less (month_of d) (month_of x)) left t k
        (ground (
          arith,
          below,
          top,
          less_of_month t e,
          less_connected (month_of t) (month_of e),
          less_trans (month_of d) (month_of e) (month_of t),
        ))

  is_month_end-left :
      (d : Date)
      → contains left d ≡ true
      → is_month_end observed d ≡ true
      → is_month_end left d ≡ true
  is_month_end-left d h k = ground (
    arith,
    later_month-left d,
    any_mono (λ e. month_of d == month_of e && less d e) left observed left-subset,
  )

  -- What is a month-end of the dates left was one of the observed dates.
  is_month_end_of_left : (d : Date) → is_month_end left d ≡ true → is_month_end observed d ≡ true
  is_month_end_of_left d h = elim (Bool-cases (later_in_month observed d)) [
    | inl found ↦
        let (e, seen, after) =
          any_witness (λ x. month_of d == month_of x && less d x) observed found in
        absurd (
          ground (
            arith,
            h,
            found,
            same d,
            same e,
            seen,
            after,
            contains-keep_set observed (suc b) m y d,
            contains-keep_set observed (suc b) m y e,
            dates_after_mono d e,
            any_of_contains (λ x. month_of d == month_of x && less d x) left e,
          ))
    | inr last ↦ ground (
      arith,
      last,
      left-subset d,
      any_mono (λ e. less (month_of d) (month_of e)) left observed left-subset,
    )
  ]

  month_ends_after-left : (d : Date) → month_ends_after left d ≤ month_ends_after observed d
  month_ends_after-left d =
      count_mono (less d) (month_end_dates observed false) (month_end_dates left false)
        (IsAscending-IsNodup (month_end_dates left false) (month_end_dates-IsAscending left))
        (λ a h. ground (
          arith,
          contains-month_end_dates left false a,
          contains-month_end_dates observed false a,
          is_month_end_of_left a,
        ))

  keep_set-left :
      (d : Date) → contains left d ≡ true → contains (keep_set left (suc b) m y) d ≡ true
  keep_set-left d h = ground (
    arith,
    same d,
    contains-keep_set observed (suc b) m y d,
    contains-keep_set left (suc b) m y d,
    dates_after-left d,
    month_ends_after-left d,
    is_month_end-left d h,
  )

-- The observed dates once a sweep has deleted those that `expire_set` names.
abbrev pub sweep : List Date → Policy → List Date
sweep observed p = difference observed (expire_set observed p)

kept_eq :
    (observed : List Date) (p : Policy) (b : ℕ)
    → p.keep_business_days ≡ some (suc b)
    → kept observed p
      ≡ keep_set observed (suc b) (default p.keep_month_ends 0) p.keep_month_ends_years
kept_eq observed p b h =
    ap (λ o. keep_set observed (default o 0) (default p.keep_month_ends 0) p.keep_month_ends_years)
      h

contains-sweep :
    (observed : List Date) (p : Policy) (d : Date)
    → contains (sweep observed p) d ≡ contains (kept observed p) d
contains-sweep observed p d = ground (
  arith,
  contains-filter (λ x. not (contains (expire_set observed p) x)) observed d,
  expire_set_partition observed p d,
  contains-expire_set observed p d,
)

-- While the policy keeps a business day, a second sweep with no new data deletes nothing more.
pub sweep_idem :
    (observed : List Date) (p : Policy) (b : ℕ) (d : Date)
    → p.keep_business_days ≡ some (suc b)
    → contains (expire_set (sweep observed p) p) d ≡ false
sweep_idem observed p b d hb =
    let left = sweep observed p in
    let m = default p.keep_month_ends 0 in
    let again =
      keep_set-left observed left b m p.keep_month_ends_years
        (λ x. contains-sweep observed p x ∙ ap (λ ds. contains ds x) (kept_eq observed p b hb)) d in
    ground
      (arith, again, contains-expire_set left p d, ap (λ ds. contains ds d) (kept_eq left p b hb))
