-- ===== src/Calendar/Sweeps.antt =====
-- What a sweep by `expire_set` removes and leaves, and that a second sweep removes nothing more.
use reporting_platform_local.Common.{
  ℕ, suc, ◌≤◌, Bool, true, false, not, ◌&&◌, ◌||◌, some, List, [], ◌∷◌, ◌≡◌, refl, arith, ltb, ◌==◌,
  Bool-cases, inl, inr, contains, count, to_set, contains-to_set, contains-filter, any_of_contains,
  less, less_irrefl, less_trans, less_connected, date_order, date_eq, month_order, Date, month_of,
  pair_eq, nat_eq,
}
use reporting_platform_local.Calendar.{month_end_quota, keep_set, expire_set, Policy, default}
use reporting_platform_local.Calendar.MonthEnds.{later_in_month, later_month}
use reporting_platform_local.Calendar.KeepSet.{dates_after, month_ends_after, contains-keep_set}

-- The dates that `expire_set` leaves to a policy.
abbrev pub kept : List Date → Policy → List Date
kept observed p =
    keep_set observed (default p.keep_business_days 0) (default p.keep_month_ends 0)
      p.keep_month_ends_years

pub contains-expire_set :
    (observed : List Date) (p : Policy) (d : Date)
    → contains (expire_set observed p) d
      ≡ (contains observed d && not (contains (kept observed p) d))
unfolding expire_set
contains-expire_set observed p d = ground (
  arith,
  contains-filter (λ x. not (contains (kept observed p) x)) (to_set observed) d,
  contains-to_set observed d,
)

-- The kept and the expired dates make up the observed dates, and no date is both.
pub expire_set_partition :
    (observed : List Date) (p : Policy) (d : Date)
    → (contains observed d ≡ (contains (kept observed p) d || contains (expire_set observed p) d))
      × ((contains (kept observed p) d && contains (expire_set observed p) d) ≡ false)
expire_set_partition observed p d =
    let b = default p.keep_business_days 0 in
    let keep =
      contains-keep_set observed b (default p.keep_month_ends 0) p.keep_month_ends_years d in
    (
      ground (arith, contains-expire_set observed p d, keep),
      ground (arith, contains-expire_set observed p d),
    )

count_none :
    (q : Date → Bool) (xs : List Date)
    → ((a : Date) → contains xs a ≡ true → q a ≡ false)
    → count q xs ≡ 0
count_none q [] h = refl
count_none q (x ∷ xs) h = ground (arith, h x, count_none q xs (λ a m. h a (ground arith)))

pub count_le_of_imp :
    (q r : Date → Bool) (xs : List Date)
    → ((a : Date) → q a ≡ true → r a ≡ true)
    → count q xs ≤ count r xs
count_le_of_imp q r [] h = omega arith
count_le_of_imp q r (x ∷ xs) h = ground (arith, h x, count_le_of_imp q r xs h)

-- A date in a later month is a later date.
pub less_of_month : (d e : Date) → less (month_of d) (month_of e) ≡ true → less d e ≡ true
unfolding date_order month_order
less_of_month d e h = ground arith

not_less_of_last :
    (observed : List Date) (d a : Date)
    → later_in_month observed d ≡ false
    → later_month observed d ≡ false
    → contains observed a ≡ true
    → less d a ≡ false
not_less_of_last observed d a last open_month seen = ground (
  arith,
  any_of_contains (λ e. month_of d == month_of e && less d e) observed a seen,
  any_of_contains (λ e. less (month_of d) (month_of e)) observed a seen,
  less_connected (month_of d) (month_of a),
  less_of_month a d,
  less_trans d a d,
  less_irrefl d,
)

pub dates_after_none :
    (observed : List Date) (d : Date)
    → ((a : Date) → contains observed a ≡ true → less d a ≡ false)
    → dates_after observed d ≡ 0
dates_after_none observed d h =
    count_none (less d) (to_set observed) (λ a m. h a (ground (arith, contains-to_set observed a)))

dates_after_last :
    (observed : List Date) (d : Date)
    → later_in_month observed d ≡ false
    → later_month observed d ≡ false
    → dates_after observed d ≡ 0
dates_after_last observed d last open_month =
    dates_after_none observed d (λ a m. not_less_of_last observed d a last open_month m)

-- While at least one business day is kept, the last observed date of a month is not expired if
-- fewer month-ends come after it than the quota: neither before a later month is observed nor after.
pub month_end_survives :
    (observed : List Date) (p : Policy) (b : ℕ) (d : Date)
    → p.keep_business_days ≡ some (suc b)
    → contains observed d ≡ true
    → later_in_month observed d ≡ false
    → ltb
        (month_ends_after observed d)
        (month_end_quota (default p.keep_month_ends 0) p.keep_month_ends_years)
      ≡ true
    → contains (expire_set observed p) d ≡ false
month_end_survives observed p b d hb seen last few = elim (Bool-cases (later_month observed d)) [
  | inl closed ↦ ground (
    arith,
    hb,
    contains-expire_set observed p d,
    contains-keep_set observed (suc b) (default p.keep_month_ends 0) p.keep_month_ends_years d,
  )
  | inr open_month ↦ ground (
    arith,
    hb,
    contains-expire_set observed p d,
    contains-keep_set observed (suc b) (default p.keep_month_ends 0) p.keep_month_ends_years d,
    dates_after_last observed d last open_month,
  )
]
