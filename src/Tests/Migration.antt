-- ===== src/Tests/Migration.antt =====
-- A feed of two business dates, and one delivery seen from both sides.
use reporting_platform_local.Common.{
  ℕ, true, false, none, some, Option, List, [], ◌∷◌, String, ◌≡◌, ◌≢◌, ◌↔◌, refl, lookup, Dict,
  Date, ok, string_eq, date_eq, nat_eq, nat_order, date_order, length, all, contains, ◌≤◌, ◌<◌, ◌⊎◌,
  insert, All,
}
use reporting_platform_local.Common.{◌||◌}
use reporting_platform_local.Migration.RowHashes.{technical_columns}
use reporting_platform_local.Migration.Comparators.{Outcome, pass, warn, fail}
use reporting_platform_local.Migration.Worst.{outcome_eq}
use reporting_platform_local.Migration.SameRows.{compare_rows, compare_rows-pass}
use reporting_platform_local.Migration.Acceptance.{
  Comparison, Acceptance, evaluate, latest_per_date, ready, by_business_date, record_run, walk,
}
use reporting_platform_local.Migration.Latest.{IsLatest}
use reporting_platform_local.Migration.Streak.{newest_rows, required_of, successful, ready_iff}
use reporting_platform_local.Migration.Correlate.{
  Evidence, Correlation, Tier, producer_run, business_date_only, correlate, strongest,
  correlation_key,
}
use reporting_platform_local.Migration.Pairing.{offered, rank, correlate_rests}

abbrev june : ℕ → Date
june d = record { year = 2026; month = 6; day = d }

abbrev run : Date → ℕ → Outcome → Comparison
run d at o = record {
  business_date = d;
  executed_at = at;
  outcome = o;
  checkpoint = "raw";
  comparison_id = "c";
}

-- The failed run of the 29th is superseded by a later one.
abbrev history : List Comparison
history =
    run (june 30) 4 pass ∷ run (june 29) 2 fail ∷ run (june 29) 3 warn ∷ run (june 26) 1 fail ∷ []

abbrev lenient : Acceptance
lenient = record { consecutive_successes = some 2; allow_warnings = some true }

abbrev strict : Acceptance
strict = record { consecutive_successes = none; allow_warnings = none }

abbrev offer : Option String → Option String → Evidence
offer producer_run_id source_sha256 = record {
  feed = "trade";
  business_date = june 30;
  source_system = some "murex";
  source_filename = some "trades.csv";
  source_sha256 = source_sha256;
  producer_run_id = producer_run_id;
}

abbrev one_two : List ℕ
one_two = 1 ∷ 2 ∷ []

abbrev two_three : List ℕ
two_three = 2 ∷ 3 ∷ []

abbrev same : String → String
same s = s

abbrev day_text : Date → String
day_text d = "2026-06-30"

ready_now : (evaluate history lenient).status ≡ ready
unfolding evaluate latest_per_date by_business_date record_run walk date_eq date_order lookup insert
ready_now = refl

ready_iff_example :
    IsLatest history (latest_per_date history)
    × (((evaluate history lenient).status ≡ ready) ↔ (
        (latest_per_date history ≢ [])
        × (required_of lenient ≤ length (latest_per_date history))
        × (all (successful lenient) (newest_rows (required_of lenient) (latest_per_date history))
            ≡ true)))
ready_iff_example = ready_iff history lenient

abbrev legacy_hashes : Dict ℕ String
legacy_hashes = (1, "a") ∷ (2, "b") ∷ []

abbrev new_hashes : Dict ℕ String
new_hashes = (2, "b") ∷ (1, "a") ∷ []

compare_rows-pass_example :
    (compare_rows legacy_hashes new_hashes ≡ pass)
    ↔ ((k : ℕ) → lookup k legacy_hashes ≡ lookup k new_hashes)
compare_rows-pass_example = compare_rows-pass legacy_hashes new_hashes

abbrev paired : Correlation
paired = record {
  key = "producer_run:producer_run\u{1f}trade\u{1f}2026-06-30\u{1f}r7";
  tier = producer_run;
}

by_run :
    correlate same day_text same false (offer (some "r7") (some "x")) (offer (some "r7") (some "y"))
    ≡ ok (some paired)
unfolding correlate strongest correlation_key string_eq date_eq
by_run = refl

disagreement :
    correlate same day_text same true (offer (some "r7") (some "x")) (offer (some "r8") (some "x"))
    ≡ ok none
unfolding correlate strongest correlation_key string_eq date_eq
disagreement = refl

correlate_rests_example :
    ((offer (some "r7") (some "x")).feed ≡ "trade")
    × (june 30 ≡ june 30)
    × ((parts : List String) × (offered same producer_run (offer (some "r7") (some "x"))
          ≡ some parts)
        × (offered same producer_run (offer (some "r7") (some "y")) ≡ some parts)
        × (paired.key ≡ correlation_key same day_text same producer_run "trade" (june 30) parts))
    × (producer_run ≡ business_date_only → false ≡ true)
    × ((t : Tier)
        → rank t < 0
        → (offered same t (offer (some "r7") (some "x")) ≡ none)
          ⊎ (offered same t (offer (some "r7") (some "y")) ≡ none))
correlate_rests_example =
    correlate_rests same day_text same false (offer (some "r7") (some "x"))
      (offer (some "r7") (some "y")) paired by_run

abbrev amounts : Dict String String
amounts = ("_batch_id", "b7") ∷ ("amount", "12.50") ∷ []

abbrev amount : List String
amount = "amount" ∷ []

no_technical : All (λ c. contains technical_columns c || contains [] c ≡ false) amount
unfolding string_eq
no_technical = (refl, tt)
