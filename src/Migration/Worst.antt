-- ===== src/Migration/Worst.antt =====
-- The aggregate outcome over several strategies.
use reporting_platform_local.Common.{
  ◌≤◌, true, List, [], ◌∷◌, ◌≡◌, arith, if◌then◌else◌, ltb, All, Eq, contains,
}
use reporting_platform_local.Migration.Comparators.{Outcome, rank, worst_from, worst_outcome}

Outcome-discrete : Discrete Outcome
Outcome-discrete = hlevel

instance pub outcome_eq : Eq Outcome
outcome_eq = record { dec = Outcome-discrete }

rank-worst_from :
    (w : Outcome) (os : List Outcome)
    → (rank w ≤ rank (worst_from w os)) × All (λ o. rank o ≤ rank (worst_from w os)) os
rank-worst_from w [] = (omega arith, tt)
rank-worst_from w (o ∷ os) =
    let next = if ltb (rank w) (rank o) then o else w in
    let (low, rest) = rank-worst_from next os in
    let kept : (rank w ≤ rank next) × (rank o ≤ rank next) = ground arith in
    (omega (arith, kept, low), (omega (arith, kept, low), rest))

contains-worst_from : (w : Outcome) (os : List Outcome) → contains (w ∷ os) (worst_from w os) ≡ true
contains-worst_from w [] = ground arith
contains-worst_from w (o ∷ os) = ground (arith, contains-worst_from w os, contains-worst_from o os)

-- Of at least one outcome the aggregate is one of them, and none of them has a higher rank
-- (FAIL above ERROR above WARN above PASS).
pub worst_outcome_lem :
    (o : Outcome) (os : List Outcome)
    → (contains (o ∷ os) (worst_outcome (o ∷ os)) ≡ true)
      × All (λ p. rank p ≤ rank (worst_outcome (o ∷ os))) (o ∷ os)
unfolding worst_outcome
worst_outcome_lem o os = (contains-worst_from o os, rank-worst_from o os)
