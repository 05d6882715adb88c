-- ===== src/Completeness/Gaps.antt =====
-- Which days count as missing from a feed that delivers daily.
use reporting_platform_local.Common.{
  ℕ, zero, suc, ◌+◌, ◌-◌, Bool, true, false, not, ◌&&◌, ◌||◌, List, [], ◌∷◌, map, String, ◌≡◌, refl,
  sym, subst, ◌∙◌, arith, if◌then◌else◌, less, any, filter, contains, difference, to_set, sort,
  length, drop, Dict, values, Date, date_eq, date_order, contains-filter, contains-to_set,
  contains-sort, contains-append, length-sort, less_irrefl, less_trans, less_connected,
  any_of_contains,
}
use reporting_platform_local.Completeness.{
  on, all_dates, window, first_date, last_date, between, daily_entry,
}

less_first :
    (x d e : Date) → not (less x (if less d e then d else e)) ≡ (not (less x d) || not (less x e))
less_first x d e = ground (
  arith,
  less_trans x d e,
  less_trans d x e,
  less_connected d e,
  less_connected x d,
  less_connected x e,
  less_trans d e x,
  less_trans e x d,
  less_trans x e d,
  less_trans e d x,
)

less_last :
    (x d e : Date) → not (less (if less e d then d else e) x) ≡ (not (less d x) || not (less e x))
less_last x d e = ground (
  arith,
  less_trans x d e,
  less_trans d x e,
  less_connected d e,
  less_connected x d,
  less_connected x e,
  less_trans d e x,
  less_trans e x d,
  less_trans x e d,
  less_trans e d x,
)

-- A day is not before the first date exactly when some date is on or before the day.
not_before_first :
    (d : Date) (ds : List Date) (x : Date)
    → not (less x (first_date d ds)) ≡ any (λ e. not (less x e)) (d ∷ ds)
unfolding first_date
not_before_first d [] x = ground arith
not_before_first d (e ∷ ds) x =
    ground (arith, less_first x d (first_date e ds), not_before_first e ds x)

not_after_last :
    (d : Date) (ds : List Date) (x : Date)
    → not (less (last_date d ds) x) ≡ any (λ e. not (less e x)) (d ∷ ds)
unfolding last_date
not_after_last d [] x = ground arith
not_after_last d (e ∷ ds) x = ground (arith, less_last x d (last_date e ds), not_after_last e ds x)

contains_of_drop :
    (k : ℕ) (xs : List Date) (x : Date) → contains (drop k xs) x ≡ true → contains xs x ≡ true
contains_of_drop zero xs x h = h
contains_of_drop (suc k) [] x h = cc
contains_of_drop (suc k) (y ∷ xs) x h = ground (arith, contains_of_drop k xs x)

length-map-on : (ds : List Date) → length (map on ds) ≡ length ds
length-map-on [] = refl
length-map-on (d ∷ ds) = omega (arith, length-map-on ds)

map-on_injective : (xs ys : List Date) → map on xs ≡ map on ys → xs ≡ ys
map-on_injective [] [] h = refl
map-on_injective [] (y ∷ ys) h = cc
map-on_injective (x ∷ xs) [] h = cc
map-on_injective (x ∷ xs) (y ∷ ys) h = ground (arith, map-on_injective xs ys)

contains-window :
    (lookback : ℕ) (per_feed : Dict String (List Date)) (x : Date)
    → contains (window lookback per_feed) x ≡ true
    → contains (all_dates (values per_feed)) x ≡ true
unfolding window
contains-window zero per_feed x h = ground (
  arith,
  contains-sort (to_set (all_dates (values per_feed))) x,
  contains-to_set (all_dates (values per_feed)) x,
)
contains-window (suc n) per_feed x h =
    let calendar = sort (to_set (all_dates (values per_feed))) in
    ground (
      arith,
      contains_of_drop (length calendar - suc n) calendar x h,
      contains-sort (to_set (all_dates (values per_feed))) x,
      contains-to_set (all_dates (values per_feed)) x,
    )

contains-all_dates :
    (dss : List (List Date)) (x : Date) → contains (all_dates dss) x ≡ any (λ ds. contains ds x) dss
contains-all_dates [] x = refl
contains-all_dates (ds ∷ dss) x =
    ground (arith, contains-append ds (all_dates dss) x, contains-all_dates dss x)

-- `p` holds wherever `q` does: what is left of `p` without `q` makes up the difference.
length-filter_apart :
    (p q : Date → Bool) (xs : List Date)
    → ((x : Date) → q x ≡ true → p x ≡ true)
    → length (filter p xs) ≡ length (filter q xs) + length (filter (λ x. not (q x)) (filter p xs))
length-filter_apart p q [] h = omega arith
length-filter_apart p q (x ∷ xs) h = ground (arith, length-filter_apart p q xs h, h x)

module _ (iso_week : Date → ℕ × ℕ) where
  -- The days that are missing from a feed with dates that delivers daily: the days of the window
  -- on which the feed did not deliver, though it delivered on an earlier day (or the same) and on a
  -- later one.
  pub daily_entry-missing :
      (name how : String) (window : List Date) (d : Date) (ds : List Date)
      → (days : List Date) × ((daily_entry iso_week name how window d ds).missing ≡ map on days)
        × ((x : Date)
            → contains days x ≡ (
                contains window x
                && (any (λ e. not (less x e)) (d ∷ ds)
                    && any (λ e. not (less e x)) (d ∷ ds)
                    && not (contains (d ∷ ds) x))))
  unfolding daily_entry
  daily_entry-missing name how window d ds =
      let inside = between (first_date d ds) (last_date d ds) in
      let expected = filter inside window in
      (
        sort (difference expected (d ∷ ds)),
        refl,
        λ x. ground (
          arith,
          contains-sort (difference expected (d ∷ ds)) x,
          contains-filter (λ y. not (contains (d ∷ ds) y)) expected x,
          contains-filter inside window x,
          not_before_first d ds x,
          not_after_last d ds x,
        ),
      )

  between_of_contains :
      (d : Date) (ds : List Date) (x : Date)
      → contains (d ∷ ds) x ≡ true
      → between (first_date d ds) (last_date d ds) x ≡ true
  between_of_contains d ds x h = ground (
    arith,
    not_before_first d ds x,
    not_after_last d ds x,
    any_of_contains (λ e. not (less x e)) (d ∷ ds) x h,
    any_of_contains (λ e. not (less e x)) (d ∷ ds) x h,
    less_irrefl x,
  )

  -- The numbers of a daily feed add up: the days expected of it are those observed in the window
  -- and those missing.
  pub daily_entry_counts :
      (name how : String) (window : List Date) (d : Date) (ds : List Date)
      → (daily_entry iso_week name how window d ds).expected
        ≡ (daily_entry iso_week name how window d ds).observed
          + length (daily_entry iso_week name how window d ds).missing
  unfolding daily_entry
  daily_entry_counts name how window d ds =
      let inside = between (first_date d ds) (last_date d ds) in
      let missing = difference (filter inside window) (d ∷ ds) in
      omega (
        arith,
        length-filter_apart inside (contains (d ∷ ds)) window (between_of_contains d ds),
        length-map-on (sort missing),
        length-sort missing,
      )

  -- A missing day is corroborated: with the window that the feeds' own dates make, some feed
  -- delivered on each day that is missing from a daily feed, and the feed itself did not. So a day
  -- on which no feed delivered is never a gap.
  pub missing_corroborated :
      (name how : String) (lookback : ℕ) (per_feed : Dict String (List Date)) (d : Date)
      (ds : List Date) (days : List Date) (x : Date)
      → (daily_entry iso_week name how (window lookback per_feed) d ds).missing ≡ map on days
      → contains days x ≡ true
      → (any (λ dates. contains dates x) (values per_feed) ≡ true) × (contains (d ∷ ds) x ≡ false)
  missing_corroborated name how lookback per_feed d ds days x listed h =
      let (found, same, each) = daily_entry-missing name how (window lookback per_feed) d ds in
      let equal : days ≡ found = map-on_injective days found (sym listed ∙ same) in
      let inside : contains found x ≡ true = subst (λ xs. contains xs x ≡ true) equal h in
      (
        ground (
          arith,
          each x,
          inside,
          contains-window lookback per_feed x,
          contains-all_dates (values per_feed) x,
        ),
        ground (arith, each x, inside),
      )
