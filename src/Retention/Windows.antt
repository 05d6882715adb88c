-- ===== src/Retention/Windows.antt =====
-- The retention windows that reporting_platform/common/context.py reads from retention.yml:
-- `class_keep_years` and `tag_retention_years`. A value of the file is what `isinstance` tells
-- apart: an integer, a boolean, or anything else; a window may also be a mapping by environment.
use reporting_platform_local.Common.{
  ℕ, zero, suc, Bool, not, Option, none, some, List, [], ◌∷◌, String, Result, ok, err, ◌>>=◌, ◌>>◌,
  refuse_if, Dict, lookup, contains, string_eq, ℤ, pos, negsuc,
}

pub data Scalar : Type 0 where
  integer : ℤ → Scalar
  boolean : Bool → Scalar
  other : Scalar

pub data Value : Type 0 where
  scalar : Scalar → Value
  by_environment : Dict String Scalar → Value

-- The ways in which reading a window or sweeping raises
pub data Fault : Type 0 where
  no_environment not_whole not_positive no_default not_a_mapping not_classed : Fault
  missing_key unreadable_date window_too_short not_deleted : Fault

-- A value that `or {}` and `isinstance(…, dict)` look at
pub data Mapping (V : Type 0) : Type 0 where
  absent malformed : Mapping V
  mapping : Dict String V → Mapping V

-- `references.published_tags`
pub record TagPolicy : Type 0 where
  pub default_keep_years : Option Value
  pub per_report : Mapping Value

-- `environments[ENV].landing` and `.quarantine`; a class maps to its own `keep_years`, if it has one.
pub record Block : Type 0 where
  pub keep_years : Option Scalar
  pub classes : Mapping (Option Scalar)

-- `isinstance(value, int)` and positive
abbrev pub whole_years : Scalar → Result Fault ℕ
whole_years (integer (pos zero)) = err not_positive
whole_years (integer (pos (suc n))) = ok (suc n)
whole_years (integer (negsuc n)) = err not_positive
whole_years (boolean b) = err not_whole
whole_years other = err not_whole

-- `value.get(key)` of an optional value: a missing one is None, which is no integer
abbrev pub or_null : Option Scalar → Scalar
or_null none = other
or_null (some s) = s

-- `_years` of `tag_retention_years`
unfoldable pub years_of : String → Value → Result Fault ℕ
years_of env (scalar s) = whole_years s
years_of env (by_environment m) = elim (lookup env m) [
  | none ↦ err no_environment
  | some s ↦ whole_years s
]

-- `if report is None or report not in per_report`
abbrev pub report_entry : Option String → Dict String Value → Option Value
report_entry none entries = none
report_entry (some report) entries = lookup report entries

abbrev pub entries_of : {V : Type 0} → Mapping V → Result Fault (Dict String V)
entries_of absent = ok []
entries_of malformed = err not_a_mapping
entries_of (mapping m) = ok m

unfoldable pub tag_retention_years : String → TagPolicy → Option String → Result Fault ℕ
tag_retention_years env policy report = elim policy.default_keep_years [
  | none ↦ err no_default
  | some value ↦ do
    default ← years_of env value
    per_report ← entries_of policy.per_report
    elim (report_entry report per_report) [ none ↦ ok default | some entry ↦ years_of env entry ]
]

-- `PREFIX_CLASSES`
abbrev pub prefix_classes : List String
prefix_classes = "landing" ∷ "quarantine" ∷ []

-- `entry.get("keep_years", block.get("keep_years"))`, with `classes.get(retention_class) or {}`
abbrev pub class_entry : Option Scalar → Option (Option Scalar) → Scalar
class_entry default none = or_null default
class_entry default (some none) = or_null default
class_entry default (some (some own)) = own

-- `policy` is `retention_policy`: the environment's block of each prefix.
unfoldable pub class_keep_years : (String → Block) → String → String → Result Fault ℕ
class_keep_years policy prefix retention_class = do
  refuse_if (not (contains prefix_classes prefix)) not_classed
  classes ← entries_of (policy prefix).classes
  whole_years (class_entry (policy prefix).keep_years (lookup retention_class classes))
