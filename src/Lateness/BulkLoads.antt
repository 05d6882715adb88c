-- ===== src/Lateness/BulkLoads.antt =====
-- A backfill is more than one late date, all of which arrived on one day.
use reporting_platform_local.Common.{
  ◌<◌, true, ◌&&◌, List, [], ◌∷◌, map, length, contains, all, to_set, contains-to_set, ◌==◌, ltb,
  Date, date_eq, nat_eq, ◌≡◌, refl, arith,
}
use reporting_platform_local.Lateness.{Late, Clock, arrival_days, is_bulk_load}

all-map :
    (f : Late → Date) (a : Date) (xs : List Late)
    → all (λ x. x == a) (map f xs) ≡ all (λ x. f x == a) xs
all-map f a [] = refl
all-map f a (x ∷ xs) = ground (arith, all-map f a xs)

contains_of_all :
    (a x : Date) (xs : List Date) → all (λ y. y == a) xs ≡ true → contains xs x ≡ true → x ≡ a
contains_of_all a x [] h k = absurd (cc)
contains_of_all a x (y ∷ xs) h k = ground (arith, h, k, contains_of_all a x xs)

length_pos : (x : Date) (xs : List Date) → 0 < length (to_set (x ∷ xs))
length_pos x [] = omega arith
length_pos x (y ∷ xs) = ground (arith, length_pos y xs)

-- A set of days has one member exactly when all the days are the first one.
length-to_set_one :
    (x : Date) (xs : List Date) → (length (to_set (x ∷ xs)) == 1) ≡ all (λ y. y == x) xs
unfolding nat_eq
length-to_set_one x [] = refl
length-to_set_one x (y ∷ xs) = ground (
  arith,
  length-to_set_one y xs,
  contains-to_set (y ∷ xs) x,
  length_pos y xs,
  contains_of_all y x xs,
  contains_of_all x y xs,
)

module _ (clock : Clock) where
  -- The findings are one bulk load exactly when there are at least two of them and all arrived on
  -- the day of the first.
  pub is_bulk_load_one_day :
      (first : Late) (others : List Late)
      → is_bulk_load clock (first ∷ others) ≡ (
          ltb 0 (length others)
          && all (λ x. clock.day_of x.arrived == clock.day_of first.arrived) others)
  unfolding is_bulk_load arrival_days
  is_bulk_load_one_day first others = ground (
    arith,
    length-to_set_one (clock.day_of first.arrived) (map (λ x. clock.day_of x.arrived) others),
    all-map (λ x. clock.day_of x.arrived) (clock.day_of first.arrived) others,
  )
