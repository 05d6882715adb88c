-- ===== src/Tests/Ready.antt =====
-- A queue with an expired archive, one that has not been ingested, and an orphan.
use reporting_platform_local.Common.{
  ℕ, true, false, none, some, [], ◌∷◌, String, ◌≡◌, refl, Date, string_eq, date_eq, nat_eq,
  date_order, ℕ_discrete, contains, starts_with, after_prefix, Listed,
}
use reporting_platform_local.Retention.Ready.{
  Manifest, ReadyFeed, keep_days, ready_cutoff, derived_parts, classify, is_ingested, all_expired,
  all_orphaned, sweep_feed, sweep_ready,
}
use reporting_platform_local.Retention.ReadySwept.{IsReclaimable, sweep_ready_deletes}

abbrev june : ℕ → Date
june d = record { year = 2026; month = 6; day = d }

abbrev manifest : String → String → Date → Manifest
manifest source part cob_date = record {
  source_object = some source;
  parts = part ∷ [];
  cob_date = cob_date;
}

abbrev trade : ReadyFeed
trade = record {
  name = "trade";
  ready_prefix = "ready/trade";
  manifests =
      ("m1", manifest "l1" "ready/trade/p1" (june 1))
      ∷ ("m2", manifest "l2" "ready/trade/p2" (june 1))
      ∷ ("m3", manifest "l3" "ready/trade/p3" (june 28))
      ∷ ("m4", manifest "l4" "landing/trade/p4" (june 1))
      ∷ [];
  landed = "l1" ∷ "l2" ∷ "l4" ∷ [];
  ingested = "ready/trade/p1" ∷ "landing/trade/p4" ∷ [];
}

program : Unit {0}
unfolding keep_days ready_cutoff derived_parts classify is_ingested all_expired all_orphaned
    sweep_feed sweep_ready string_eq date_eq nat_eq date_order ℕ_discrete starts_with after_prefix
program = tt

swept :
    (sweep_ready false (june 20) (trade ∷ [])).0 ≡ "ready/trade/p1" ∷ "ready/trade/p3" ∷ "m3" ∷ []
unfolding program
swept = refl

held : (sweep_feed false (june 20) trade).entry.held_uningested ≡ 1
unfolding program
held = refl

a_week : ready_cutoff (λ seconds. june 20) none ≡ june 20
unfolding program
a_week = refl

is_swept : contains (sweep_ready false (june 20) (trade ∷ [])).0 "ready/trade/p1" ≡ true
unfolding program
is_swept = refl

sweep_ready_deletes_example :
    (feed : ReadyFeed) × Listed feed (trade ∷ []) × IsReclaimable (june 20) feed "ready/trade/p1"
sweep_ready_deletes_example =
    sweep_ready_deletes false (june 20) (trade ∷ []) "ready/trade/p1" is_swept
