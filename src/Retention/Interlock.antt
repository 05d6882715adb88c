-- ===== src/Retention/Interlock.antt =====
-- `check_reproducibility_window` of reporting_platform/retention/retention.py. What the function
-- asks of the project, `feeds_behind_report` with its walk of the `ref()`s, and Python's `int`, are
-- parameters.
use reporting_platform_local.Common.{
  ℕ, Bool, true, false, not, none, some, List, [], ◌∷◌, ◌++◌, map, String, if◌then◌else◌, ltb,
  Result, ok, err, ◌>>=◌, ◌>>◌, refuse_if, Dict, lookup, keys, contains, string_eq, ℤ, sort, filter,
  difference, to_set, text_order,
}
use reporting_platform_local.Retention.Windows.{
  Scalar, Fault, not_a_mapping, missing_key, window_too_short, Mapping, absent, malformed, mapping,
  TagPolicy, Block, or_null, tag_retention_years, class_keep_years, Value,
}

-- One row of `checked`
pub record Checked : Type 0 where
  pub report : String
  pub feed : String
  pub live_exposure : Bool
  pub retention_class : String
  pub landing_keep_years : ℕ
  pub tag_keep_years : ℕ

pub record Windows : Type 0 where
  pub checked : List Checked
  pub unbound_feeds : List String
  pub default_landing_keep_years : ℤ

-- The configuration of an environment: retention.yml's blocks, the reports of the project, and the
-- retention class of each feed.
pub record Config : Type 0 where
  pub env : String
  pub published_tags : TagPolicy
  pub retention_policy : String → Block
  pub reports : List String
  pub feeds : Dict String String

-- The keys of `per_report`; anything else that is not empty is refused by
-- `tag_retention_years`, or by Python's `set` before it.
abbrev pub named_reports : Mapping Value → Result Fault (List String)
named_reports absent = ok []
named_reports malformed = err not_a_mapping
named_reports (mapping m) = ok (keys m)

-- `landing_years < tag_years`
abbrev pub is_short : Checked → Bool
is_short c = ltb c.landing_keep_years c.tag_keep_years

abbrev pub is_empty {ℓ} : {A : Type ℓ} → List A → Bool
is_empty [] = true
is_empty (x ∷ xs) = false

module _ (feeds_behind_report : String → Result Fault (List String))
    (int : Scalar → Result Fault ℤ) where
  -- The turn of the inner loop for one feed
  unfoldable pub check_feed : Config → String → ℕ → String → Result Fault Checked
  check_feed config name tag_years feed_name = elim (lookup feed_name config.feeds) [
    | none ↦ err missing_key
    | some retention_class ↦ do
      landing_years ← class_keep_years config.retention_policy "landing" retention_class
      ok (record {
        report = name;
        feed = feed_name;
        live_exposure = contains config.reports name;
        retention_class = retention_class;
        landing_keep_years = landing_years;
        tag_keep_years = tag_years;
      })
  ]

  unfoldable pub check_feeds : Config → String → ℕ → List String → Result Fault (List Checked)
  check_feeds config name tag_years [] = ok []
  check_feeds config name tag_years (feed_name ∷ rest) = do
    row ← check_feed config name tag_years feed_name
    rows ← check_feeds config name tag_years rest
    ok (row ∷ rows)

  -- `behind`: a report with no live exposure binds every feed.
  abbrev pub behind : Config → String → Result Fault (List String)
  behind config name =
      if contains config.reports name
      then feeds_behind_report name
      else ok (sort (keys config.feeds))

  unfoldable pub check_reports : Config → List String → Result Fault (List Checked)
  check_reports config [] = ok []
  check_reports config (name ∷ names) = do
    tag_years ← tag_retention_years config.env config.published_tags (some name)
    bound ← behind config name
    rows ← check_feeds config name tag_years bound
    more ← check_reports config names
    ok (rows ++ more)

  -- `sorted(known) + orphans`
  unfoldable pub judged : Config → List String → List String
  judged config named = sort config.reports ++ sort (difference (to_set named) config.reports)

  unfoldable pub check_reproducibility_window : Config → Result Fault Windows
  check_reproducibility_window config = do
    named ← named_reports config.published_tags.per_report
    checked ← check_reports config (judged config named)
    refuse_if (not (is_empty (filter is_short checked))) window_too_short
    default ← int (or_null (config.retention_policy "landing").keep_years)
    ok (record {
      checked = checked;
      unbound_feeds = sort (difference (keys config.feeds) (map (λ c. c.feed) checked));
      default_landing_keep_years = default;
    })
