-- ===== src/Completeness/ExitCode.antt =====
-- What a green exit of the completeness check means.
use reporting_platform_local.Common.{
  ℕ, true, false, List, [], ◌∷◌, String, ◌≡◌, refl, arith, All, contains, length, sort, Dict, keys,
  Date, string_eq, nat_eq, text_order, contains-sort,
}
use reporting_platform_local.Completeness.{
  Entry, Context, sum_missing, find_gaps, is_none, exit_code,
}

none_missing : (es : List Entry) → sum_missing es ≡ 0 → All (λ e. length e.missing ≡ 0) es
none_missing [] h = tt
none_missing (e ∷ es) h = (omega (arith, h), none_missing es (omega (arith, h)))

none_contains :
    (names : List String) (name : String) → is_none names ≡ true → contains names name ≡ false
none_contains [] name h = refl
none_contains (n ∷ names) name h = cc

module _ (iso_week : Date → ℕ × ℕ) where
  -- When the check is asked to fail on a gap and exits with 0, no feed was unreadable and no entry
  -- of the report has a missing period.
  pub exit_code_zero :
      (per_feed : Dict String (List Date)) (context : Context)
      → exit_code true (find_gaps iso_week per_feed context) ≡ 0
      → ((name : String) → contains (keys context.unreadable) name ≡ false)
        × All (λ e. length e.missing ≡ 0) (find_gaps iso_week per_feed context).feeds
  unfolding exit_code find_gaps
  exit_code_zero per_feed context h =
      let report = find_gaps iso_week per_feed context in
      let none_unreadable : is_none (sort (keys context.unreadable)) ≡ true = ground arith in
      (
        λ name. ground (
          arith,
          contains-sort (keys context.unreadable) name,
          none_contains (sort (keys context.unreadable)) name none_unreadable,
        ),
        none_missing report.feeds (ground arith),
      )
