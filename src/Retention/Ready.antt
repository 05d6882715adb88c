-- ===== src/Retention/Ready.antt =====
-- reporting_platform/retention/ready.py: the sweep of the work queue. What the landing prefix holds,
-- what has been ingested and the manifests of a feed are arguments.
use reporting_platform_local.Common.{
  ℕ, ◌+◌, ◌*◌, Bool, true, false, not, ◌&&◌, ◌||◌, Option, none, some, List, [], ◌∷◌, ◌++◌, all,
  filter, count, length, contains, String, if◌then◌else◌, less, Date, date_order, string_eq,
  starts_with, text_of,
}

-- A manifest, as the sweep reads it: the keys of its parts, and the date that it is about
pub record Manifest : Type 0 where
  pub source_object : Option String
  pub parts : List String
  pub cob_date : Date

pub record ReadyFeed : Type 0 where
  pub name : String
  pub ready_prefix : String
  pub manifests : List (String × Manifest)
  pub landed : List String
  pub ingested : List String

-- What the first loop makes of a manifest: one whose landing object is gone, one that is left
-- alone, or one whose derived parts may be deleted
pub data Verdict : Type 0 where
  orphan retained : Verdict
  candidate : List String → Verdict

pub record ReadyEntry : Type 0 where
  pub feed : String
  pub parts_deleted : ℕ
  pub manifests_deleted : ℕ
  pub retained : ℕ
  pub held_uningested : ℕ
  pub orphans_uningested : ℕ

pub record ReadySummary : Type 0 where
  pub feeds : List ReadyEntry
  pub manifests_deleted : ℕ
  pub parts_deleted : ℕ

-- What the sweep of a feed has deleted, in order, and its entry
pub record ReadySweep : Type 0 where
  pub deleted : List String
  pub entry : ReadyEntry

-- `int(policy.get("keep_days", 7))`, where the block may be missing
unfoldable pub keep_days : Option (Option ℕ) → ℕ
keep_days none = 7
keep_days (some none) = 7
keep_days (some (some days)) = days

-- The date that the window of derived parts begins on, by the clock's date some seconds ago
unfoldable pub ready_cutoff : (ℕ → Date) → Option (Option ℕ) → Date
ready_cutoff day_before policy = day_before (keep_days policy * 86400)

abbrev pub no_keys : List String → Bool
no_keys [] = true
no_keys (k ∷ ks) = false

-- `source is not None and source not in landed`
abbrev pub is_gone : List String → Option String → Bool
is_gone landed none = false
is_gone landed (some source) = not (contains landed source)

-- The parts under the feed's own prefix
unfoldable pub derived_parts : String → List String → List String
derived_parts ready_prefix parts = filter (starts_with (text_of (ready_prefix ∷ "/" ∷ []))) parts

unfoldable pub classify : ReadyFeed → Date → Manifest → Verdict
classify feed cutoff manifest =
    let derived = derived_parts feed.ready_prefix manifest.parts in
    if is_gone feed.landed manifest.source_object
    then orphan
    else if no_keys derived || not (less manifest.cob_date cutoff)
    then retained
    else candidate derived

-- `all(p["object_key"] in done for p in manifest["parts"])`
unfoldable pub is_ingested : ReadyFeed → Manifest → Bool
is_ingested feed manifest = all (contains feed.ingested) manifest.parts

-- The derived parts of a manifest that the sweep deletes because they have expired
abbrev pub expired_parts : Bool → Verdict → List String
expired_parts ingested (candidate derived) = if ingested then derived else []
expired_parts ingested orphan = []
expired_parts ingested retained = []

-- The keys that go with an orphan: its parts under the prefix, and its manifest
abbrev pub orphaned_keys : String → List String → Verdict → List String
orphaned_keys key derived orphan = derived ++ key ∷ []
orphaned_keys key derived retained = []
orphaned_keys key derived (candidate parts) = []

unfoldable pub all_expired : ReadyFeed → Date → List (String × Manifest) → List String
all_expired feed cutoff [] = []
all_expired feed cutoff ((key, manifest) ∷ entries) =
    expired_parts (is_ingested feed manifest) (classify feed cutoff manifest)
    ++ all_expired feed cutoff entries

unfoldable pub all_orphaned : ReadyFeed → Date → List (String × Manifest) → List String
all_orphaned feed cutoff [] = []
all_orphaned feed cutoff ((key, manifest) ∷ entries) =
    orphaned_keys key (derived_parts feed.ready_prefix manifest.parts)
      (classify feed cutoff manifest)
    ++ all_orphaned feed cutoff entries

abbrev pub is_orphan : Verdict → Bool
is_orphan orphan = true
is_orphan retained = false
is_orphan (candidate derived) = false

abbrev pub is_retained : Verdict → Bool
is_retained orphan = false
is_retained retained = true
is_retained (candidate derived) = false

abbrev pub is_candidate : Verdict → Bool
is_candidate orphan = false
is_candidate retained = false
is_candidate (candidate derived) = true

-- The manifests with a verdict, by whether they have been ingested
abbrev pub count_verdicts : ReadyFeed → Date → (Verdict → Bool → Bool) → ℕ
count_verdicts feed cutoff p =
    count
      (λ (entry : String × Manifest). p (classify feed cutoff entry.1) (is_ingested feed entry.1))
      feed.manifests

unfoldable pub sweep_feed : Bool → Date → ReadyFeed → ReadySweep
sweep_feed dry_run cutoff feed =
    let expired = all_expired feed cutoff feed.manifests in
    record {
      deleted = if dry_run then [] else expired ++ all_orphaned feed cutoff feed.manifests;
      entry = record {
        feed = feed.name;
        parts_deleted = length expired;
        manifests_deleted = count_verdicts feed cutoff (λ v done. is_orphan v);
        retained = count_verdicts feed cutoff (λ v done. is_retained v);
        held_uningested = count_verdicts feed cutoff (λ v done. is_candidate v && not done);
        orphans_uningested = count_verdicts feed cutoff (λ v done. is_orphan v && not done);
      };
    }

abbrev pub add_ready : Bool → ReadyEntry → ReadySummary → ReadySummary
add_ready dry_run entry summary = record {
  feeds = entry ∷ summary.feeds;
  manifests_deleted = (if dry_run then 0 else entry.manifests_deleted) + summary.manifests_deleted;
  parts_deleted = (if dry_run then 0 else entry.parts_deleted) + summary.parts_deleted;
}

-- The keys that have been deleted, and the summary
unfoldable pub sweep_ready : Bool → Date → List ReadyFeed → List String × ReadySummary
sweep_ready dry_run cutoff [] =
    ([], record { feeds = []; manifests_deleted = 0; parts_deleted = 0 })
sweep_ready dry_run cutoff (feed ∷ feeds) =
    let swept = sweep_feed dry_run cutoff feed in
    let (deleted, summary) = sweep_ready dry_run cutoff feeds in
    (swept.deleted ++ deleted, add_ready dry_run swept.entry summary)
