-- ===== src/Migration/Comparators.antt =====
-- reporting_platform/migration/comparators.py: the comparison strategies and their outcomes.
use reporting_platform_local.Common.{
  ℕ, ◌-◌, Bool, true, false, not, ◌&&◌, ◌||◌, Option, none, some, List, [], ◌∷◌, String, ◌==◌,
  if◌then◌else◌, Eq, ltb, contains, filter, length, difference, ℤ, sub_ℕ, Dict, keys, lookup,
  string_eq, nat_eq, option_eq,
}

pub data Outcome : Type 0 where
  pass warn error fail : Outcome

-- A comparator's verdict, with the aggregate evidence of its strategy.
pub record ComparisonOutcome (S : Type 0) : Type 0 where
  pub outcome : Outcome
  pub summary : S

pub record CountSummary : Type 0 where
  pub legacy_count : ℕ
  pub new_count : ℕ
  pub difference : Option ℤ

unfoldable pub compare_row_count : ℕ → ℕ → ComparisonOutcome CountSummary
compare_row_count legacy_count new_count =
    if legacy_count == new_count
    then record {
      outcome = pass;
      summary = record { legacy_count = legacy_count; new_count = new_count; difference = none };
    }
    else record {
      outcome = fail;
      summary = record {
        legacy_count = legacy_count;
        new_count = new_count;
        difference = some (sub_ℕ new_count legacy_count);
      };
    }

pub record KeySummary : Type 0 where
  pub matched : ℕ
  pub legacy_only : ℕ
  pub new_only : ℕ

abbrev pub is_empty {ℓ} : {A : Type ℓ} → List A → Bool
is_empty [] = true
is_empty (x ∷ xs) = false

pub record HashSummary : Type 0 where
  pub compared : ℕ
  pub matched : ℕ
  pub different : ℕ

module _ {K : Type 0} ⦃e : Eq K⦄ where
  -- `legacy & new` on sets
  abbrev pub common : List K → List K → List K
  common legacy new = filter (contains new) legacy

  -- The arguments are sets: lists with no duplicates.
  unfoldable pub compare_key_set : List K → List K → ComparisonOutcome KeySummary
  compare_key_set legacy_keys new_keys =
      let legacy_only = difference legacy_keys new_keys in
      let new_only = difference new_keys legacy_keys in
      record {
        outcome = if is_empty legacy_only && is_empty new_only then pass else fail;
        summary = record {
          matched = length (common legacy_keys new_keys);
          legacy_only = length legacy_only;
          new_only = length new_only;
        };
      }

  -- `[k for k in common if legacy_hashes[k] != new_hashes[k]]`
  abbrev pub differing : Dict K String → Dict K String → List K
  differing legacy new =
      filter (λ k. not (lookup k legacy == lookup k new)) (common (keys legacy) (keys new))

  unfoldable pub compare_row_hash : Dict K String → Dict K String → ComparisonOutcome HashSummary
  compare_row_hash legacy_hashes new_hashes =
      let shared = common (keys legacy_hashes) (keys new_hashes) in
      let different = differing legacy_hashes new_hashes in
      record {
        outcome = if is_empty different then pass else fail;
        summary = record {
          compared = length shared;
          matched = length shared - length different;
          different = length different;
        };
      }

-- Python's floats, by the operations that `compare_aggregate` applies.
pub record Floats : Type 1 where
  pub Float : Type 0
  pub minus : Float → Float → Float
  pub divide : Float → Float → Float
  pub abs : Float → Float
  pub is_zero : Float → Bool
  pub le : Float → Float → Bool
  pub one : Float

module _ (floats : Floats) where
  open floats use {Float, minus, divide, abs, is_zero, le, one}

  pub record Tolerance : Type 0 where
    pub absolute : Option Float
    pub relative : Option Float

  abbrev pub within : Option Float → Float → Bool
  within none x = false
  within (some limit) x = le x limit

  -- The outcome of `compare_aggregate`; its summary repeats the arguments and the difference.
  unfoldable pub compare_aggregate : Float → Float → Tolerance → ComparisonOutcome Float
  compare_aggregate legacy_value new_value tolerance =
      let diff = abs (minus new_value legacy_value) in
      let denom = if is_zero (abs legacy_value) then one else abs legacy_value in
      record {
        outcome =
            if is_zero diff
            then pass
            else if within tolerance.absolute diff || within tolerance.relative (divide diff denom)
            then pass
            else fail;
        summary = diff;
      }

-- `rank` of `worst_outcome`
abbrev pub rank : Outcome → ℕ
rank pass = 0
rank warn = 1
rank error = 2
rank fail = 3

-- `max(outcomes, key=…)` keeps the first of equals.
abbrev pub worst_from : Outcome → List Outcome → Outcome
worst_from worst [] = worst
worst_from worst (o ∷ os) = worst_from (if ltb (rank worst) (rank o) then o else worst) os

unfoldable pub worst_outcome : List Outcome → Outcome
worst_outcome [] = error
worst_outcome (o ∷ os) = worst_from o os
