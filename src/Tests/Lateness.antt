-- ===== src/Tests/Lateness.antt =====
-- Two feeds: one promised seven o'clock, the other nothing.
use reporting_platform_local.Common.{
  ℕ, true, ◌&&◌, ◌*◌, List, [], ◌∷◌, String, ◌≡◌, refl, Date, Dict, string_eq, date_eq, nat_eq,
  date_order, text_order, ℕ_discrete, ◌==◌, contains, map, all, ltb, lookup, if◌then◌else◌,
}
use reporting_platform_local.Lateness.{
  Delivery, Late, Clock, split_clock, group, recent_dates, recent_arrivals, deadline, arrival_days,
  is_bulk_load, late_arrivals, feed_entry, check_feeds, run, exit_code,
}
use reporting_platform_local.Lateness.Deadlines.{late_by_every_delivery}

abbrev june : ℕ → Date
june d = record { year = 2026; month = 6; day = d }

abbrev clock : Clock
clock = record {
  midnight = λ d. d.day * 86400;
  day_of = λ n. if ltb n 2160000 then june 24 else june 25;
  int = λ s. if s == "07" then 7 else 0;
}

abbrev delivered : String → ℕ → ℕ → Delivery
delivered feed d at = record { feed = feed; cob_date = june d; received_at = at }

-- 22 June twice, at seven and at eight on the 24th; 23 June at six on the 24th
abbrev deliveries : List Delivery
deliveries =
    delivered "trade" 22 2098800
    ∷ delivered "trade" 22 2102400
    ∷ delivered "trade" 23 2095200
    ∷ delivered "rating" 22 2098800
    ∷ []

abbrev expected : Dict String String
expected = ("trade", "07:00") ∷ ("rating", "") ∷ []

abbrev late_22 : Late
late_22 = record {
  cob_date = june 22;
  due = 2012400;
  arrived = 2098800;
  seconds_late = 86400;
  deliveries = 2;
}

program : Unit {0}
unfolding split_clock group recent_dates recent_arrivals deadline arrival_days is_bulk_load
    late_arrivals feed_entry check_feeds run exit_code string_eq date_eq nat_eq date_order
    text_order ℕ_discrete lookup
program = tt

found : (feed_entry clock deliveries 10 "trade" "07:00").late ≡ late_22 ∷ []
unfolding program
found = refl

skipped : (run clock deliveries 10 expected).skipped_feeds ≡ "rating" ∷ []
unfolding program
skipped = refl

red : exit_code true (run clock deliveries 10 expected) ≡ 1
unfolding program
red = refl

late_by_every_delivery_example :
    contains (map (λ x. x.cob_date) (feed_entry clock deliveries 10 "trade" "07:00").late) (june 22)
    ≡ (contains (recent_dates deliveries "trade" 10) (june 22)
        && all
            (λ d. ltb (deadline clock (june 22) "07:00") d.received_at)
            (group deliveries "trade" (june 22)))
late_by_every_delivery_example =
    late_by_every_delivery clock "07:00" deliveries 10 "trade" (june 22)
