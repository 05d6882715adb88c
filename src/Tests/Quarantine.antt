-- ===== src/Tests/Quarantine.antt =====
-- An old rejection, a recent one, and a key whose folders do not agree with its stamp.
use reporting_platform_local.Common.{
  ℕ, true, false, ◌&&◌, some, List, [], ◌∷◌, String, ◌≡◌, refl, Date, ok, string_eq, date_eq,
  nat_eq, date_order, ℕ_discrete, ◌==◌, contains, leb, lookup, if◌then◌else◌, after_prefix, Listed,
  pos,
}
use reporting_platform_local.Retention.Windows.{integer, absent, class_keep_years}
use reporting_platform_local.Retention.References.{first_segment, is_line}
use reporting_platform_local.Retention.Landing.{Object}
use reporting_platform_local.Retention.Quarantine.{
  Dates, QuarantineConfig, take_digits, stamp_of, match_folders, match_key, rejected_on, keep_years,
  cutoff_for, judge_all, sweep_quarantine,
}
use reporting_platform_local.Retention.QuarantineSwept.{IsOutdated, sweep_quarantine_deletes}

abbrev date : ℕ → ℕ → Date
date y m = record { year = y; month = m; day = 5 }

abbrev dates : Dates
dates = record {
  digit = λ c. leb 0x30 c && leb c 0x39;
  strptime = λ s. if s == "20110405" then some (date 2011 4) else some (date 2026 6);
  int = λ s. if s == "2011" then 2011 else if s == "2026" then 2026 else if s == "04" then 4 else 6;
  day_before = λ seconds. date 2016 6;
}

abbrev config : QuarantineConfig
config = record {
  policy = λ prefix. record { keep_years = some (integer (pos 10)); classes = absent };
  default_years = ok 10;
  retention_class = ("trade", "standard") ∷ [];
}

abbrev object : String → Object
object key = record { key = key; size = 1 }

abbrev old_key : String
old_key = "quarantine/trade/2011/04/20110405T101500Z_trade.csv"

abbrev objects : List Object
objects =
    object old_key
    ∷ object "quarantine/_unclaimed/2026/06/20260605T101500Z_x"
    ∷ object "quarantine/trade/2011/06/20110405T101500Z_trade.csv"
    ∷ object "quarantine/readme"
    ∷ []

program : Unit {0}
unfolding take_digits stamp_of match_folders match_key rejected_on keep_years cutoff_for judge_all
    sweep_quarantine class_keep_years first_segment is_line string_eq date_eq nat_eq date_order
    ℕ_discrete lookup after_prefix
program = tt

swept : (sweep_quarantine dates config false objects).deleted ≡ old_key ∷ []
unfolding program
swept = refl

is_swept : contains (sweep_quarantine dates config false objects).deleted old_key ≡ true
unfolding program
is_swept = refl

sweep_quarantine_deletes_example :
    (obj : Object) × Listed obj objects × (obj.key ≡ old_key) × IsOutdated dates config obj
sweep_quarantine_deletes_example =
    sweep_quarantine_deletes dates config false objects old_key is_swept
