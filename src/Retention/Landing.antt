-- ===== src/Retention/Landing.antt =====
-- reporting_platform/retention/landing.py: the sweep of the landing prefix. The bucket is the list of
-- objects that each prefix holds; the clock is as in `Retention/Sweeps`.
use Prim.Native.String.{String, [], ◌∷◌}
use reporting_platform_local.Common.{
  ℕ, ◌+◌, Bool, Option, none, some, List, [], ◌∷◌, ◌++◌, map, length, to_set, maximum,
  if◌then◌else◌, less, Result, ok, err, ◌>>=◌, Dict, lookup, insert, Date, date_order, string_eq,
  nat_eq, text_order, text_of,
}
use reporting_platform_local.Retention.Windows.{Fault, Block, class_keep_years}
use reporting_platform_local.Retention.Sweeps.{seconds_of_years}
use reporting_platform_local.Filenames.Render.{Python}
use reporting_platform_local.Filenames.Claims.{Matcher}
use reporting_platform_local.Retention.LandingNames.{Feed, base_name, cob_date_of}

pub record Object : Type 0 where
  pub key : String
  pub size : ℕ

-- An expired object: its key, its size and the date it was judged by
pub record Expired : Type 0 where
  pub key : String
  pub size : ℕ
  pub cob_date : Date

-- The objects of one feed, by what the sweep makes of them
pub record Tally : Type 0 where
  pub expired : List Expired
  pub retained : ℕ
  pub unrecognised : ℕ

pub record Entry : Type 0 where
  pub feed : String
  pub retention_class : String
  pub keep_years : ℕ
  pub cutoff : Date
  pub expired : ℕ
  pub retained : ℕ
  pub unrecognised : ℕ
  pub bytes : ℕ
  pub oldest : Option Date
  pub newest_expired : Option Date

-- One item of `classes_applied`
pub record ClassApplied : Type 0 where
  pub keep_years : ℕ
  pub feeds : ℕ
  pub cutoff : Date

pub record Summary : Type 0 where
  pub default_keep_years : ℕ
  pub default_cutoff : Date
  pub classes_applied : Dict String ClassApplied
  pub feeds : List Entry
  pub objects_deleted : ℕ
  pub bytes_deleted : ℕ
  pub unrecognised : ℕ

-- What the sweep has deleted, and its summary unless it raises
pub record LandingSweep : Type 0 where
  pub deleted : List String
  pub summary : Result Fault Summary

-- The environment of the sweep: `int` of the default window and of raw's month ends, and what the
-- bucket holds under each prefix.
pub record LandingConfig : Type 0 where
  pub policy : String → Block
  pub default_years : Result Fault ℕ
  pub raw_months : Result Fault ℕ
  pub feeds : List Feed
  pub objects : String → List Object
  pub day_before : ℕ → Date

abbrev pub earlier_of : Date → Option Date → Date
earlier_of d none = d
earlier_of d (some e) = if less e d then e else d

abbrev pub earliest : List Date → Option Date
earliest [] = none
earliest (d ∷ ds) = some (earlier_of d (earliest ds))

abbrev pub total_size : List Expired → ℕ
total_size [] = 0
total_size (x ∷ xs) = x.size + total_size xs

-- `classes_applied.setdefault(…)["feeds"] += 1`
unfoldable pub count_class : Dict String ClassApplied → String → ℕ → Date → Dict String ClassApplied
count_class applied klass years cutoff = elim (lookup klass applied) [
  | none ↦ insert klass (record { keep_years = years; feeds = 1; cutoff = cutoff }) applied
  | some entry ↦ insert klass (record entry { feeds = entry.feeds + 1 }) applied
]

module _ (python : Python) (re : Matcher) (gates : String → String → String → Bool) where
  -- The turn of the loop for one object, with `_expiry`
  unfoldable pub add_object : Feed → Date → List String → Object → Tally → Result Fault Tally
  add_object feed cutoff siblings obj tally =
      cob_date_of python re gates feed (base_name obj.key) siblings >>= λ dated. elim dated [
        | none ↦ ok (record tally { unrecognised = tally.unrecognised + 1 })
        | some bd ↦
            if less bd cutoff
            then ok (record tally {
              expired = record { key = obj.key; size = obj.size; cob_date = bd } ∷ tally.expired;
            })
            else ok (record tally { retained = tally.retained + 1 })
      ]

  abbrev pub nothing : Tally
  nothing = record { expired = []; retained = 0; unrecognised = 0 }

  -- The loop: an object is judged before those that follow it, so the first that cannot be judged is
  -- the one that raises.
  unfoldable pub tally_objects : Feed → Date → List String → List Object → Result Fault Tally
  tally_objects feed cutoff siblings [] = ok nothing
  tally_objects feed cutoff siblings (obj ∷ objects) =
      add_object feed cutoff siblings obj nothing >>= λ first.
      tally_objects feed cutoff siblings objects >>= add_object feed cutoff siblings obj

  -- `keep_years` of a feed; a short window against raw's is only warned of.
  unfoldable pub keep_years : LandingConfig → Feed → Result Fault ℕ
  keep_years config feed = do
    years ← class_keep_years config.policy "landing" feed.retention_class
    raw_months ← config.raw_months
    ok years

  abbrev pub cutoff_of : LandingConfig → ℕ → Date
  cutoff_of config years = config.day_before (seconds_of_years years)

  abbrev pub prefix_of : Feed → String
  prefix_of feed = text_of (feed.landing_prefix ∷ "/" ∷ feed.name ∷ "/" ∷ [])

  -- The objects of a feed's prefix, judged against its own cutoff
  unfoldable pub judge_feed : LandingConfig → Feed → ℕ → Result Fault Tally
  judge_feed config feed years =
      let objects = config.objects (prefix_of feed) in
      let siblings = to_set (map (λ o. base_name o.key) objects) in
      tally_objects feed (cutoff_of config years) siblings objects

  abbrev pub entry_of : LandingConfig → Feed → ℕ → Tally → Entry
  entry_of config feed years tally = record {
    feed = feed.name;
    retention_class = feed.retention_class;
    keep_years = years;
    cutoff = cutoff_of config years;
    expired = length tally.expired;
    retained = tally.retained;
    unrecognised = tally.unrecognised;
    bytes = total_size tally.expired;
    oldest = earliest (map (λ x. x.cob_date) tally.expired);
    newest_expired = maximum (map (λ x. x.cob_date) tally.expired);
  }

  abbrev pub add_entry : LandingConfig → Bool → Feed → ℕ → Tally → Summary → Summary
  add_entry config dry_run feed years tally summary = record summary {
    classes_applied =
        count_class summary.classes_applied feed.retention_class years (cutoff_of config years);
    feeds = summary.feeds ++ entry_of config feed years tally ∷ [];
    objects_deleted = summary.objects_deleted + (if dry_run then 0 else length tally.expired);
    bytes_deleted = summary.bytes_deleted + (if dry_run then 0 else total_size tally.expired);
    unrecognised = summary.unrecognised + tally.unrecognised;
  }

  unfoldable pub sweep_feeds : LandingConfig → Bool → List Feed → Summary → LandingSweep
  sweep_feeds config dry_run [] summary = record { deleted = []; summary = ok summary }
  sweep_feeds config dry_run (feed ∷ feeds) summary = elim (keep_years config feed) [
    | err fault ↦ record { deleted = []; summary = err fault }
    | ok years ↦ elim (judge_feed config feed years) [
      | err fault ↦ record { deleted = []; summary = err fault }
      | ok tally ↦
          let rest =
            sweep_feeds config dry_run feeds (add_entry config dry_run feed years tally summary) in
          record {
            deleted = (if dry_run then [] else map (λ x. x.key) tally.expired) ++ rest.deleted;
            summary = rest.summary;
          }
    ]
  ]

  abbrev pub start_summary : LandingConfig → ℕ → Summary
  start_summary config years = record {
    default_keep_years = years;
    default_cutoff = cutoff_of config years;
    classes_applied = [];
    feeds = [];
    objects_deleted = 0;
    bytes_deleted = 0;
    unrecognised = 0;
  }

  unfoldable pub sweep_landing : LandingConfig → Bool → LandingSweep
  sweep_landing config dry_run =
      elim (config.default_years >>= λ years. config.raw_months >>= λ months. ok years) [
        | err fault ↦ record { deleted = []; summary = err fault }
        | ok years ↦ sweep_feeds config dry_run config.feeds (start_summary config years)
      ]
