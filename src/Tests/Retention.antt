-- ===== src/Tests/Retention.antt =====
-- A night's sweep: one old publication, one recent, one that cannot be judged, and two branches.
use reporting_platform_local.Common.{
  Listed, after_prefix, ℕ, true, false, ◌&&◌, ◌||◌, none, some, List, [], ◌∷◌, String, ◌≡◌, inl,
  inr, refl, Date, Result, ok, err, string_eq, date_eq, nat_eq, nat_order, date_order, ℕ_discrete,
  ◌==◌, contains, leb, less, if◌then◌else◌, ◌++◌, All, pos, lookup, option_eq, or_empty, ℤ,
  text_order,
}
use reporting_platform_local.Retention.Windows.{
  Scalar, integer, other, scalar, mapping, absent, TagPolicy, Fault, not_positive, not_deleted,
  tag_retention_years, class_keep_years, years_of,
}
use reporting_platform_local.Retention.Interlock.{
  Config, Windows, check_reproducibility_window, check_reports, check_feeds, check_feed, judged,
}
use reporting_platform_local.Retention.References.{
  Kind, branch, tag, Reference, sweep, first_segment, is_line, is_date, dated_run, named_run,
  match_tag,
}
use reporting_platform_local.Retention.Sweeps.{
  Platform, tag_age, outlived, tag_expired, expire_tags, expire_snapshot_tags, every_prefix,
  WorkingWindows, abandoned_after_hours, working_window, abandoned, branch_expired,
  clean_working_branches,
}
use reporting_platform_local.Retention.Swept.{
  Outlived, names_of, IsRehearsal, IsSettled, expire_tags_deletes, expire_tags_stops,
}
use reporting_platform_local.Retention.Abandoned.{
  Abandoned, clean_working_branches_deletes, dry_run_agrees,
}
use reporting_platform_local.Retention.Fallback.{IsUnreadable, fallback_expires}
use reporting_platform_local.Retention.Bound.{Honoured, check_reproducibility_window_binds}

abbrev day : ℕ → Date
day y = record { year = y; month = 1; day = 2 }

abbrev int_of : Scalar → Result Fault ℕ
int_of s = ok 36

abbrev integer_of : Scalar → Result Fault ℤ
integer_of s = ok (pos 12)

abbrev platform : Platform
platform = record {
  commit_day =
      λ s. if s == "new" then some (day 2026) else if s == "old" then some (day 2012) else none;
  commit_instant = λ s. if s == "new" then some 999000 else if s == "old" then some 1000 else none;
  strptime = λ s. some (day 2011);
  day_before = λ seconds. if seconds == 315576000 then day 2016 else day 1900;
  now = 1000000;
  int = int_of;
  digit = λ c. leb 0x30 c && leb c 0x39;
  delete_reference = λ name. none;
}

abbrev policy : TagPolicy
policy = record {
  default_keep_years = some (scalar (integer (pos 10)));
  per_report = mapping (("broken", scalar (integer (pos 0))) ∷ []);
}

abbrev reference : Kind → String → String → Reference
reference kind name time = record {
  kind = kind;
  name = name;
  commits_ahead = some 3;
  commit_time = some time;
}

abbrev old_tag : Reference
old_tag = reference tag "published/exposure/2011-01-02/r1" "old"

abbrev new_tag : Reference
new_tag = reference tag "published/exposure/2011-01-02/r2" "new"

abbrev broken_tag : Reference
broken_tag = reference tag "published/broken/2011-01-02/r3" "old"

abbrev tags : List Reference
tags = new_tag ∷ old_tag ∷ []

abbrev branches : List Reference
branches =
    reference branch "hold/build/a" "old"
    ∷ reference branch "build/b" "old"
    ∷ reference branch "ingest/c" "new"
    ∷ []

abbrev config : Config
config = record {
  env = "prod";
  published_tags = record {
    default_keep_years = some (scalar (integer (pos 10)));
    per_report = absent;
  };
  retention_policy = λ prefix. record { keep_years = some (integer (pos 12)); classes = absent };
  reports = "exposure" ∷ [];
  feeds = ("trade", "standard") ∷ [];
}

abbrev lineage : String → Result Fault (List String)
lineage report = ok ("trade" ∷ [])

abbrev none_named : List String
none_named = []

abbrev passed : Windows
passed = record {
  checked =
      record {
        report = "exposure";
        feed = "trade";
        live_exposure = true;
        retention_class = "standard";
        landing_keep_years = 12;
        tag_keep_years = 10;
      }
      ∷ [];
  unbound_feeds = [];
  default_landing_keep_years = pos 12;
}

program : Unit {0}
unfolding expire_tags sweep tag_expired match_tag after_prefix named_run dated_run first_segment
    is_line is_date tag_retention_years years_of outlived tag_age string_eq nat_eq date_eq
    date_order option_eq ℕ_discrete lookup clean_working_branches abandoned_after_hours
    branch_expired working_window abandoned check_reproducibility_window check_reports check_feeds
    check_feed judged class_keep_years
program = tt

expired_old : (expire_tags platform "prod" policy false tags).deleted ≡ old_tag.name ∷ []
unfolding program
expired_old = refl

returned : (expire_tags platform "prod" policy false tags).removed ≡ ok (old_tag.name ∷ [])
unfolding program
returned = refl

swept_branch :
    (clean_working_branches platform (every_prefix other) false branches).deleted ≡ "build/b" ∷ []
unfolding program
swept_branch = refl

listed_old : contains (expire_tags platform "prod" policy false tags).deleted old_tag.name ≡ true
unfolding program
listed_old = refl

listed_branch :
    contains (clean_working_branches platform (every_prefix other) false branches).deleted "build/b"
    ≡ true
unfolding program
listed_branch = refl

judged_before : All (IsSettled (tag_expired platform "prod" policy) platform.delete_reference) tags
unfolding program
judged_before = (inl refl, (inr (refl, refl), tt))

broken : tag_expired platform "prod" policy broken_tag ≡ err not_positive
unfolding program
broken = refl

outlived_old : outlived platform old_tag 10 "2011-01-02" ≡ ok true
unfolding program
outlived_old = refl

committed_old : platform.commit_day (or_empty old_tag.commit_time) ≡ some (day 2012)
unfolding program
committed_old = refl

unreadable : IsUnreadable platform (some "lately")
unfolding program
unreadable = refl

in_order : less (day 2012) (day 2011) ≡ false
unfolding program
in_order = refl

checked : check_reproducibility_window lineage integer_of config ≡ ok passed
unfolding program
checked = refl

is_report : contains config.reports "exposure" || contains none_named "exposure" ≡ true
unfolding program
is_report = refl

expire_tags_deletes_example :
    (ref : Reference) × Listed ref tags
    × (ref.name ≡ "published/exposure/2011-01-02/r1")
    × (ref.kind ≡ tag)
    × Outlived platform "prod" policy ref
expire_tags_deletes_example =
    expire_tags_deletes platform "prod" policy false tags "published/exposure/2011-01-02/r1"
      listed_old

expire_tags_stops_example :
    ((expire_tags platform "prod" policy false (tags ++ broken_tag ∷ [])).deleted
      ≡ names_of (tag_expired platform "prod" policy) tags)
    × ((expire_tags platform "prod" policy false (tags ++ broken_tag ∷ [])).removed
        ≡ err not_positive)
expire_tags_stops_example =
    expire_tags_stops platform "prod" policy tags broken_tag [] not_positive judged_before broken

clean_working_branches_deletes_example :
    (windows : WorkingWindows) × (abandoned_after_hours platform (every_prefix other) ≡ ok windows)
    × ((ref : Reference) × Listed ref branches
        × (ref.name ≡ "build/b")
        × (ref.kind ≡ branch)
        × Abandoned platform windows ref)
clean_working_branches_deletes_example =
    clean_working_branches_deletes platform (every_prefix other) false branches "build/b"
      listed_branch

-- Nessie refuses to delete the old tag, where the dry run would return it.
abbrev locked_platform : Platform
locked_platform = record platform { delete_reference = λ name. some not_deleted }

refused_delete :
    ((expire_tags locked_platform "prod" policy false tags).removed ≡ err not_deleted)
    × ((expire_tags locked_platform "prod" policy true tags).removed ≡ ok (old_tag.name ∷ []))
unfolding program
refused_delete = (refl, refl)

dry_run_agrees_example :
    IsRehearsal platform.delete_reference tags
      (expire_tags platform "prod" policy true tags)
      (expire_tags platform "prod" policy false tags)
    × IsRehearsal platform.delete_reference tags
        (expire_snapshot_tags platform "prod" none true tags)
        (expire_snapshot_tags platform "prod" none false tags)
    × IsRehearsal platform.delete_reference tags
        (clean_working_branches platform (every_prefix other) true tags)
        (clean_working_branches platform (every_prefix other) false tags)
dry_run_agrees_example = dry_run_agrees platform "prod" policy none (every_prefix other) tags

fallback_expires_example :
    outlived platform (record old_tag { commit_time = some "lately" }) 10 "2011-01-02" ≡ ok true
fallback_expires_example =
    fallback_expires platform old_tag 10 "2011-01-02" (day 2011) (day 2012) (some "lately") refl
      committed_old in_order outlived_old (inr unreadable)

check_reproducibility_window_binds_example : Honoured lineage integer_of config "exposure"
check_reproducibility_window_binds_example =
    check_reproducibility_window_binds lineage integer_of config passed "exposure" none_named
      checked refl is_report
