-- ===== src/Tests/Landing.antt =====
-- The landing prefix of one feed: an old delivery with its metadata, a recent one, and a stray.
use reporting_platform_local.Common.{
  ℕ, true, false, none, some, List, [], ◌∷◌, String, ◌≡◌, refl, Date, ok, string_eq, date_eq,
  nat_eq, date_order, text_order, ℕ_discrete, ◌==◌, contains, lookup, if◌then◌else◌, Listed,
  has_char, ends_with, drop_chars, pos, Bool, starts_with, after_prefix, has_text,
}
use reporting_platform_local.Retention.Windows.{integer, absent, class_keep_years}
use reporting_platform_local.Filenames.Render.{Python, parse_filename}
use reporting_platform_local.Filenames.Claims.{
  Matcher, claims_control_file, control_pattern_for, data_pattern_for, is_stem_of,
}
use reporting_platform_local.Retention.LandingNames.{
  Feed, base_name, stem_of, is_metadata_key, metadata_filename, take_chars, delivery_of_metadata,
  gated_date, control_date, date_named, cob_date_of,
}
use reporting_platform_local.Retention.Landing.{
  Object, Tally, LandingConfig, add_object, tally_objects, keep_years, judge_feed, sweep_feeds,
  sweep_landing, count_class,
}
use reporting_platform_local.Retention.LandingSwept.{IsExpired, sweep_landing_deletes}
use reporting_platform_local.Retention.Metadata.{cob_date_of-metadata_filename}

abbrev day : ℕ → Date
day y = record { year = y; month = 1; day = 2 }

abbrev python : Python
python = record {
  fullmatch = λ p s.
      if s == "trade_20110102.csv"
      then some ("20110102", none)
      else if s == "trade_20260102.csv"
      then some ("20260102", none)
      else none;
  strptime = λ s. if s == "20110102" then some (day 2011) else some (day 2026);
  int = λ s. none;
  compact = λ d. "";
  decimal = λ n. "";
}

abbrev re : Matcher
re = record {
  match_stem = λ pattern s. none;
  fullmatch = λ pattern s. some false;
  isalnum = λ c. true;
}

abbrev gates : String → String → String → Bool
gates pattern stem s = false

abbrev trade : Feed
trade = record {
  name = "trade";
  landing_prefix = "landing";
  retention_class = "standard";
  names = record {
    filename_pattern = "trade_(?P<cob_date>\\d{8})\\.csv";
    archive = false;
    source_pattern = none;
    arrival_control = none;
    delivery_control = none;
  };
}

abbrev object : String → Object
object key = record { key = key; size = 10 }

abbrev objects : List Object
objects =
    object "landing/trade/trade_20110102.csv"
    ∷ object "landing/trade/trade_20110102.csv.meta.json"
    ∷ object "landing/trade/trade_20260102.csv"
    ∷ object "landing/trade/readme"
    ∷ []

abbrev config : LandingConfig
config = record {
  policy = λ prefix. record { keep_years = some (integer (pos 10)); classes = absent };
  default_years = ok 10;
  raw_months = ok 24;
  feeds = trade ∷ [];
  objects = λ prefix. objects;
  day_before = λ seconds. day 2016;
}

program : Unit {0}
unfolding parse_filename claims_control_file control_pattern_for data_pattern_for is_stem_of
    base_name stem_of is_metadata_key metadata_filename take_chars delivery_of_metadata gated_date
    control_date date_named cob_date_of add_object tally_objects keep_years judge_feed sweep_feeds
    sweep_landing count_class class_keep_years string_eq date_eq nat_eq date_order text_order
    ℕ_discrete lookup has_char ends_with drop_chars starts_with after_prefix has_text
program = tt

deleted :
    (sweep_landing python re gates config false).deleted
    ≡ "landing/trade/trade_20110102.csv" ∷ "landing/trade/trade_20110102.csv.meta.json" ∷ []
unfolding program
deleted = refl

dry : (sweep_landing python re gates config true).deleted ≡ []
unfolding program
dry = refl

is_deleted :
    contains
      (sweep_landing python re gates config false).deleted
      "landing/trade/trade_20110102.csv.meta.json"
    ≡ true
unfolding program
is_deleted = refl

abbrev judged : Tally
judged = record {
  expired =
      record { key = "landing/trade/trade_20110102.csv"; size = 10; cob_date = day 2011 }
      ∷ record {
        key = "landing/trade/trade_20110102.csv.meta.json";
        size = 10;
        cob_date = day 2011;
      }
      ∷ [];
  retained = 1;
  unrecognised = 1;
}

is_judged : judge_feed python re gates config trade 10 ≡ ok judged
unfolding program
is_judged = refl

no_metadata : is_metadata_key "trade_20110102.csv" ≡ false
unfolding program
no_metadata = refl

sweep_landing_deletes_example :
    (feed : Feed) × Listed feed (trade ∷ [])
    × IsExpired python re gates config feed "landing/trade/trade_20110102.csv.meta.json"
sweep_landing_deletes_example =
    sweep_landing_deletes python re gates config false "landing/trade/trade_20110102.csv.meta.json"
      is_deleted

cob_date_of-metadata_filename_example :
    cob_date_of python re gates trade (metadata_filename "trade_20110102.csv") []
    ≡ cob_date_of python re gates trade "trade_20110102.csv" []
cob_date_of-metadata_filename_example =
    cob_date_of-metadata_filename python re gates trade "trade_20110102.csv" [] no_metadata
