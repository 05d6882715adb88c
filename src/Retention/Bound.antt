-- ===== src/Retention/Bound.antt =====
-- What a sweep may rely on once the windows have been checked.
use reporting_platform_local.Common.{
  ℕ, ◌≤◌, true, false, not, ◌||◌, some, List, [], ◌∷◌, ◌++◌, All, String, Result, ok, ◌>>=◌, lookup,
  contains, filter, difference, to_set, sort, string_eq, text_order, ℤ, ◌≡◌, ◌⊎◌, subst, arith, inl,
  inr, Result-cases, Option-cases, Bool-cases, first_step, contains-filter, contains-to_set,
  contains-sort, contains-append,
}
use reporting_platform_local.Retention.Windows.{
  Scalar, Fault, tag_retention_years, class_keep_years,
}
use reporting_platform_local.Retention.Interlock.{
  Checked, Config, Windows, named_reports, is_short, is_empty, check_feed, check_feeds, behind,
  check_reports, judged, check_reproducibility_window,
}

-- The landing evidence of a feed is kept at least as long as some years.
abbrev pub Bound : Config → ℕ → String → Type 0
Bound config years feed_name =
    (retention_class : String) × (lookup feed_name config.feeds ≡ some retention_class)
    × ((landing_years : ℕ) × (class_keep_years config.retention_policy "landing" retention_class
          ≡ ok landing_years)
        × (years ≤ landing_years))

All-append :
    (xs ys : List Checked)
    → All (λ c. is_short c ≡ false) (xs ++ ys)
    → All (λ c. is_short c ≡ false) xs × All (λ c. is_short c ≡ false) ys
All-append [] ys h = (tt, h)
All-append (x ∷ xs) ys (h, hs) = let (left, right) = All-append xs ys hs in ((h, left), right)

none_short :
    (rows : List Checked)
    → is_empty (filter is_short rows) ≡ true
    → All (λ c. is_short c ≡ false) rows
none_short [] h = tt
none_short (c ∷ rows) h = elim (Bool-cases (is_short c)) [
  | inl short ↦ absurd (ground arith)
  | inr long ↦ (long, none_short rows (ground arith))
]

module _ (feeds_behind_report : String → Result Fault (List String))
    (int : Scalar → Result Fault ℤ) where
  check_feed-Bound :
      (config : Config) (name : String) (years : ℕ) (feed_name : String) (row : Checked)
      → check_feed feeds_behind_report int config name years feed_name ≡ ok row
      → is_short row ≡ false
      → Bound config years feed_name
  unfolding check_feed
  check_feed-Bound config name years feed_name row h long =
      elim (Option-cases (lookup feed_name config.feeds)) [
        | inl e ↦ absurd (ground arith)
        | inr (retention_class, e) ↦
            elim (Result-cases
              (class_keep_years config.retention_policy "landing" retention_class)) [
                | inr (fault, w) ↦ absurd (ground arith)
                | inl (landing_years, w) ↦ (retention_class, e, (landing_years, w, ground arith))
              ]
      ]

  check_feeds-Bound :
      (config : Config) (name : String) (years : ℕ) (feed_names : List String) (rows : List Checked)
      → check_feeds feeds_behind_report int config name years feed_names ≡ ok rows
      → All (λ c. is_short c ≡ false) rows
      → (feed_name : String) → contains feed_names feed_name ≡ true
      → Bound config years feed_name
  unfolding check_feeds
  check_feeds-Bound config name years [] rows h long feed_name m = absurd (ground arith)
  check_feeds-Bound config name years (f ∷ fs) rows h long feed_name m =
      let (row, here, h) =
        first_step (check_feed feeds_behind_report int config name years f)
          (λ row.
            check_feeds feeds_behind_report int config name years fs >>= λ rows. ok (row ∷ rows))
          h in
      let (more, there, h) =
        first_step (check_feeds feeds_behind_report int config name years fs)
          (λ rows. ok (row ∷ rows)) h in
      let both : rows ≡ row ∷ more = ground arith in
      let (first, others) : All (λ c. is_short c ≡ false) (row ∷ more) =
        subst (λ cs. All (λ c. is_short c ≡ false) cs) both long in
      let either : (f ≡ feed_name) ⊎ (contains fs feed_name ≡ true) = ground arith in
      elim either [
        | inl same ↦
            subst (λ n. Bound config years n) same
              (check_feed-Bound config name years f row here first)
        | inr later ↦ check_feeds-Bound config name years fs more there others feed_name later
      ]

  -- A report's tags have a readable window, and every feed that the report binds keeps its landing
  -- evidence at least that long.
  abbrev pub Honoured : Config → String → Type 0
  Honoured config name =
      (years : ℕ) × (tag_retention_years config.env config.published_tags (some name) ≡ ok years)
      × ((bound : List String) × (behind feeds_behind_report int config name ≡ ok bound)
          × ((feed_name : String) → contains bound feed_name ≡ true → Bound config years feed_name))

  check_reports-Honoured :
      (config : Config) (names : List String) (rows : List Checked)
      → check_reports feeds_behind_report int config names ≡ ok rows
      → All (λ c. is_short c ≡ false) rows
      → (name : String) → contains names name ≡ true
      → Honoured config name
  unfolding check_reports
  check_reports-Honoured config [] rows h long name m = absurd (ground arith)
  check_reports-Honoured config (n ∷ ns) rows h long name m =
      let check = check_feeds feeds_behind_report int config n in
      let others = check_reports feeds_behind_report int config ns in
      let (years, window, h) =
        first_step (tag_retention_years config.env config.published_tags (some n))
          (λ years. behind feeds_behind_report int config n >>= λ bound.
            check years bound >>= λ rows. others >>= λ more. ok (rows ++ more))
          h in
      let (bound, feeds, h) =
        first_step (behind feeds_behind_report int config n)
          (λ bound. check years bound >>= λ rows. others >>= λ more. ok (rows ++ more)) h in
      let (own, here, h) =
        first_step (check years bound) (λ rows. others >>= λ more. ok (rows ++ more)) h in
      let (more, there, h) = first_step others (λ more. ok (own ++ more)) h in
      let both : rows ≡ own ++ more = ground arith in
      let (first, rest) =
        All-append own more (subst (λ cs. All (λ c. is_short c ≡ false) cs) both long) in
      let either : (n ≡ name) ⊎ (contains ns name ≡ true) = ground arith in
      elim either [
        | inl same ↦
            subst (λ n. Honoured config n) same
              (years, window, (bound, feeds, check_feeds-Bound config n years bound own here first))
        | inr later ↦ check_reports-Honoured config ns more there rest name later
      ]

  contains-judged :
      (config : Config) (named : List String) (name : String)
      → contains config.reports name || contains named name ≡ true
      → contains (judged feeds_behind_report int config named) name ≡ true
  unfolding judged
  contains-judged config named name listed = ground (
    arith,
    contains-append (sort config.reports) (sort (difference (to_set named) config.reports)) name,
    contains-sort config.reports name,
    contains-sort (difference (to_set named) config.reports) name,
    contains-filter (λ n. not (contains config.reports n)) (to_set named) name,
    contains-to_set named name,
  )

  -- When the check of the windows passes, no pin outlives its evidence: for each report of the
  -- project, and for each report that has a window of its own though the project no longer has
  -- it, the window of its tags can be read, and every feed behind it (with no live exposure, every
  -- feed at all) keeps its landing evidence for at least as many years.
  pub check_reproducibility_window_binds :
      (config : Config) (windows : Windows) (name : String) (named : List String)
      → check_reproducibility_window feeds_behind_report int config ≡ ok windows
      → named_reports config.published_tags.per_report ≡ ok named
      → contains config.reports name || contains named name ≡ true
      → Honoured config name
  unfolding check_reproducibility_window
  check_reproducibility_window_binds config windows name named h given listed =
      elim (Result-cases (
        check_reports feeds_behind_report int config
          (judged feeds_behind_report int config named))) [
            | inr (fault, e) ↦ absurd (ground (arith, given, e))
            | inl (rows, e) ↦ elim (Bool-cases (is_empty (filter is_short rows))) [
              | inr some_short ↦ absurd (ground (arith, given, e))
              | inl long ↦
                  check_reports-Honoured config (judged feeds_behind_report int config named) rows e
                    (none_short rows long) name (contains-judged config named name listed)
            ]
          ]
