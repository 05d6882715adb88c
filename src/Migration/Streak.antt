-- ===== src/Migration/Streak.antt =====
-- The streak is the longest run of successes at the most recent dates.
use mathlib.Core.List.{reverse-append}
use reporting_platform_local.Common.{
  ℕ, zero, suc, ◌+◌, ◌≤◌, Bool, true, false, some, List, [], ◌∷◌, ◌++◌, reverse, ◌≡◌, ◌≢◌, ◌↔◌,
  refl, ap, arith, leb, all, length, take,
}
use reporting_platform_local.Migration.Acceptance.{
  Comparison, Acceptance, is_success, walk, ready, evaluate, evaluate_rows, latest_per_date,
  or_default,
}
use reporting_platform_local.Migration.Latest.{IsLatest, latest_per_date-IsLatest}

-- The `n` most recent of the rows, the newest first.
abbrev pub newest_rows : ℕ → List Comparison → List Comparison
newest_rows n rows = take n (reverse rows)

walk_reaches :
    (w : Bool) (rows : List Comparison) (n : ℕ)
    → (leb n (walk w rows).0 ≡ true)
      ↔ ((n ≤ length rows) × (all (λ r. is_success w r.outcome) (take n rows) ≡ true))
unfolding walk
walk_reaches w rows zero = (λ h. (omega arith, refl), λ h. ground arith)
walk_reaches w [] (suc n) = (λ h. absurd (ground arith), λ h. absurd (omega arith))
walk_reaches w (r ∷ rows) (suc n) =
    let rest = walk_reaches w rows n in
    (λ h. (ground (arith, rest.0), ground (arith, rest.0)), λ h. ground (arith, rest.1))

length-append : (xs ys : List Comparison) → length (xs ++ ys) ≡ length xs + length ys
length-append [] ys = omega arith
length-append (x ∷ xs) ys = omega (arith, length-append xs ys)

length-reverse : (xs : List Comparison) → length (reverse xs) ≡ length xs
length-reverse [] = refl
length-reverse (x ∷ xs) = omega (
  arith,
  ap length (reverse-append (x ∷ []) xs),
  length-append (reverse xs) (x ∷ []),
  length-reverse xs,
)

abbrev pub required_of : Acceptance → ℕ
required_of policy = or_default policy.consecutive_successes 10

abbrev pub successful : Acceptance → Comparison → Bool
successful policy row = is_success (or_default policy.allow_warnings false) row.outcome

rows_ready :
    (n : ℕ) (w : Bool) (rows : List Comparison)
    → ((evaluate_rows n w rows).status ≡ ready) ↔ (
        (rows ≢ [])
        × (n ≤ length rows)
        × (all (λ r. is_success w r.outcome) (newest_rows n rows) ≡ true))
rows_ready n w [] = (λ h. absurd (cc), λ h. absurd (h.0 refl))
rows_ready n w (r ∷ rs) =
    let reaches = walk_reaches w (reverse (r ∷ rs)) n in
    let same = length-reverse (r ∷ rs) in
    (
      λ h.
          let enough : leb n (walk w (reverse (r ∷ rs))).0 ≡ true = ground arith in
          (λ e. cc, omega (arith, (reaches.0 enough).0, same), (reaches.0 enough).1),
      λ h. ground (arith, reaches.1 (omega (arith, h.1, same), h.2)),
    )

-- The evidence of a feed is, by ascending date, one of the comparisons for each date that there is
-- one of, and none of its date was executed later. The feed is READY exactly when it has evidence,
-- for at least as many dates as the policy requires, and the most recent of these are successes: PASS,
-- or WARN where the policy allows warnings.
pub ready_iff :
    (comparisons : List Comparison) (policy : Acceptance)
    → IsLatest comparisons (latest_per_date comparisons)
      × (((evaluate comparisons policy).status ≡ ready) ↔ (
          (latest_per_date comparisons ≢ [])
          × (required_of policy ≤ length (latest_per_date comparisons))
          × (all
                (successful policy)
                (newest_rows (required_of policy) (latest_per_date comparisons))
              ≡ true)))
unfolding evaluate
ready_iff comparisons policy = (
  latest_per_date-IsLatest comparisons,
  rows_ready (required_of policy) (or_default policy.allow_warnings false)
      (latest_per_date comparisons),
)

rows_ready_mono :
    (n m : ℕ) (w : Bool) (rows : List Comparison)
    → n ≤ m
    → (evaluate_rows m w rows).status ≡ ready
    → (evaluate_rows n w rows).status ≡ ready
rows_ready_mono n m w [] h r = cc
rows_ready_mono n m w (row ∷ rows) h r = ground arith

-- A policy that requires more successes is not met sooner.
pub ready_mono :
    (comparisons : List Comparison) (policy : Acceptance) (more : ℕ)
    → required_of policy ≤ more
    → (evaluate comparisons (record policy { consecutive_successes = some more })).status ≡ ready
    → (evaluate comparisons policy).status ≡ ready
unfolding evaluate
ready_mono comparisons policy more h r =
    rows_ready_mono (required_of policy) more (or_default policy.allow_warnings false)
      (latest_per_date comparisons) h r
