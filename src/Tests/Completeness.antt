-- ===== src/Tests/Completeness.antt =====
-- Three feeds over one week: a day is missing from one of them.
use reporting_platform_local.Common.{
  ℕ, true, false, not, ◌&&◌, none, List, [], ◌∷◌, String, ◌≡◌, refl, map, any, contains, less, Date,
  string_eq, date_eq, nat_eq, pair_eq, date_order, nat_order, text_order, pair_order, ℕ_discrete,
  Dict, values, lookup,
}
use reporting_platform_local.Completeness.{
  on, Context, window, first_date, last_date, daily_entry, feed_entry, find_gaps, exit_code,
}
use reporting_platform_local.Completeness.Gaps.{daily_entry-missing, missing_corroborated}

abbrev june : ℕ → Date
june d = record { year = 2026; month = 6; day = d }

abbrev week_of : Date → ℕ × ℕ
week_of d = (2026, 26)

abbrev trade : List Date
trade = june 22 ∷ june 24 ∷ []

abbrev rating : List Date
rating = june 22 ∷ june 23 ∷ june 24 ∷ []

abbrev feeds : Dict String (List Date)
feeds = ("trade", trade) ∷ ("rating", rating) ∷ []

abbrev whole : Dict String (List Date)
whole = ("trade", trade) ∷ []

abbrev context : Context
context = record {
  lookback = 10;
  cadence = [];
  unreadable = [];
  absent = [];
  never_delivered = [];
  registry_error = none;
}

program : Unit {0}
unfolding window first_date last_date daily_entry feed_entry find_gaps exit_code lookup string_eq
    date_eq nat_eq pair_eq date_order text_order ℕ_discrete
program = tt

missing_day :
    (daily_entry week_of "trade" "daily" (window 10 feeds) (june 22) (june 24 ∷ [])).missing
    ≡ map on (june 23 ∷ [])
unfolding program
missing_day = refl

is_missing : contains (june 23 ∷ []) (june 23) ≡ true
unfolding program
is_missing = refl

green : exit_code true (find_gaps week_of whole context) ≡ 0
unfolding program
green = refl

daily_entry-missing_example :
    (days : List Date) × ((daily_entry week_of "trade" "daily" rating
        (june 22)
        (june 24 ∷ [])).missing
      ≡ map on days)
    × ((x : Date)
        → contains days x ≡ (
            contains rating x
            && (any (λ e. not (less x e)) trade
                && any (λ e. not (less e x)) trade
                && not (contains trade x))))
daily_entry-missing_example =
    daily_entry-missing week_of "trade" "daily" rating (june 22) (june 24 ∷ [])

missing_corroborated_example :
    (any (λ dates. contains dates (june 23)) (values feeds) ≡ true)
    × (contains trade (june 23) ≡ false)
missing_corroborated_example =
    missing_corroborated week_of "trade" "daily" 10 feeds (june 22) (june 24 ∷ []) (june 23 ∷ [])
      (june 23) missing_day is_missing
