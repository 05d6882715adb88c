-- ===== src/Lateness/Deadlines.antt =====
-- When a date is reported late.
use mathlib.Core.List.{reverse_aux}
use reporting_platform_local.Common.{
  ℕ, zero, suc, ◌<◌, true, ◌&&◌, ◌||◌, List, [], ◌∷◌, map, filter, length, contains, all, take,
  reverse, sort, to_set, contains-to_set, contains-sort, String, ◌==◌, ltb, Date, date_eq,
  date_order, string_eq, ◌≡◌, refl, sym, ◌∙◌, arith, Bool-cases, inl, inr,
}
use reporting_platform_local.Lateness.{
  Delivery, Arrival, Clock, earliest, arrival_of, group, recent_dates, recent_arrivals, deadline,
  late_arrivals, feed_entry,
}

-- A first arrival is after an instant exactly when every arrival is.
lt-earliest :
    (due at : ℕ) (ds : List Delivery)
    → ltb due (earliest at ds) ≡ (ltb due at && all (λ d. ltb due d.received_at) ds)
lt-earliest due at [] = ground arith
lt-earliest due at (d ∷ ds) = ground (arith, lt-earliest due at ds)

lt-first_arrival :
    (due : ℕ) (cob_date : Date) (ds : List Delivery)
    → 0 < length ds
    → ltb due (arrival_of cob_date ds).first_arrival ≡ all (λ d. ltb due d.received_at) ds
lt-first_arrival due cob_date [] h = absurd (omega (arith, h))
lt-first_arrival due cob_date (d ∷ ds) h = lt-earliest due d.received_at ds

cob_date-arrival_of :
    (cob_date : Date) (ds : List Delivery) → (arrival_of cob_date ds).cob_date ≡ cob_date
cob_date-arrival_of cob_date [] = refl
cob_date-arrival_of cob_date (d ∷ ds) = refl

contains-take_forward :
    (n : ℕ) (xs : List Date) (a : Date) → contains (take n xs) a ≡ true → contains xs a ≡ true
contains-take_forward zero xs a h = absurd (cc)
contains-take_forward (suc n) [] a h = h
contains-take_forward (suc n) (x ∷ xs) a h = ground (arith, h, contains-take_forward n xs a)

contains-reverse_aux :
    (xs ys : List Date) (a : Date)
    → contains (reverse_aux xs ys) a ≡ (contains xs a || contains ys a)
contains-reverse_aux [] ys a = refl
contains-reverse_aux (x ∷ xs) ys a = ground (arith, contains-reverse_aux xs (x ∷ ys) a)

contains-reverse : (xs : List Date) (a : Date) → contains (reverse xs) a ≡ contains xs a
contains-reverse xs a = ground (arith, contains-reverse_aux xs [] a)

group_of_contains :
    (ds : List Delivery) (feed : String) (a : Date)
    → contains (map (λ d. d.cob_date) (filter (λ d. d.feed == feed) ds)) a ≡ true
    → 0 < length (group ds feed a)
unfolding group
group_of_contains [] feed a h = absurd (cc)
group_of_contains (d ∷ ds) feed a h = ground (arith, h, group_of_contains ds feed a)

date_of_recent :
    (ds : List Delivery) (feed : String) (lookback : ℕ) (a : Date)
    → contains (recent_dates ds feed lookback) a ≡ true
    → 0 < length (group ds feed a)
unfolding recent_dates
date_of_recent ds feed lookback a h =
    let dates = map (λ d. d.cob_date) (filter (λ d. d.feed == feed) ds) in
    group_of_contains ds feed a (
      sym (contains-to_set dates a)
      ∙ sym (contains-sort (to_set dates) a)
      ∙ sym (contains-reverse (sort (to_set dates)) a)
      ∙ contains-take_forward lookback (reverse (sort (to_set dates))) a h)

module _ (clock : Clock) (expected_by : String) where
  late_dates : List Arrival → List Date
  late_dates rows = map (λ x. x.cob_date) (late_arrivals clock expected_by rows)

  -- Each of some dates is found late by its first arrival.
  contains-late_dates :
      (g : Date → List Delivery) (dates : List Date) (a : Date)
      → contains (late_dates (map (λ d. arrival_of d (g d)) dates)) a ≡ (
          contains dates a && ltb (deadline clock a expected_by) (arrival_of a (g a)).first_arrival)
  unfolding late_dates late_arrivals
  contains-late_dates g [] a = refl
  contains-late_dates g (d ∷ dates) a = elim (date_eq.dec a d) [
    | yes e ↦ ground (arith, e, contains-late_dates g dates a, cob_date-arrival_of d (g d))
    | no n ↦ ground (arith, n, contains-late_dates g dates a, cob_date-arrival_of d (g d))
  ]

  -- A date is among a feed's findings exactly when it is one of the feed's recent dates and every
  -- one of its deliveries was received after the deadline.
  pub late_by_every_delivery :
      (deliveries : List Delivery) (lookback : ℕ) (feed : String) (a : Date)
      → contains
          (map (λ x. x.cob_date) (feed_entry clock deliveries lookback feed expected_by).late)
          a
        ≡ (contains (recent_dates deliveries feed lookback) a
            && all
                (λ d. ltb (deadline clock a expected_by) d.received_at)
                (group deliveries feed a))
  unfolding feed_entry recent_arrivals late_dates
  late_by_every_delivery deliveries lookback feed a =
      let every =
        contains-late_dates (group deliveries feed) (recent_dates deliveries feed lookback) a in
      elim (Bool-cases (contains (recent_dates deliveries feed lookback) a)) [
        | inl h ↦ ground (
          arith,
          h,
          every,
          lt-first_arrival (deadline clock a expected_by) a (group deliveries feed a)
              (date_of_recent deliveries feed lookback a h),
        )
        | inr h ↦ ground (arith, h, every)
      ]
