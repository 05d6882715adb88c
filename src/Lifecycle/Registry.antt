-- ===== src/Lifecycle/Registry.antt =====
-- The rows of the registry's database that the lifecycle reads and writes, and the reports that
-- the project declares. A timestamp is a number; the database hands out each row's stamp.
use reporting_platform_local.Common.{
  ℕ, Option, none, some, List, String, ◌==◌, if◌then◌else◌, Eq, lookup, Dict, Date, Result, ok, err,
  ◌>>=◌, strip, truthy, string_eq,
}

pub data State : Type 0 where
  «open» locked submitted reopened : State

unfoldable pub State-discrete : Discrete State
State-discrete = hlevel

instance unfoldable pub state_eq : Eq State
unfolding State-discrete
state_eq = record { dec = State-discrete }

-- A row of registry.as_at_transition
pub record Transition : Type 0 where
  pub transition_id : ℕ
  pub report : String
  pub as_at_date : Date
  pub state : State
  pub occurred_at : ℕ
  pub actor : String
  pub reason : String
  pub approved_by : Option String
  pub submission_id : Option String

-- A row of registry.report_version, registry.run_input and registry.delivery
pub record Version : Type 0 where
  pub report : String
  pub as_at_date : Date
  pub version_no : ℕ
  pub run_id : String

abbrev pub Pair : Type 0
Pair = String × String

pub record RunInput : Type 0 where
  pub run_id : String
  pub feed_delivery : Pair

pub record Delivery : Type 0 where
  pub feed_delivery : Pair
  pub cob_date : Date

pub record Registry : Type 0 where
  pub transitions : List Transition
  pub versions : List Version
  pub run_inputs : List RunInput
  pub deliveries : List Delivery

-- What an exposure of the dbt project says of a report
pub record Exposure : Type 0 where
  pub owner : String
  pub restatement : Option String

abbrev pub Project : Type 0
Project = Dict String Exposure

-- LifecycleRefused, by its message, and the ValueErrors of the project's lookups
pub data Error : Type 0 where
  not_writable unattributed nothing_to_reopen not_approved restatement_needed : Error
  unknown_report no_owner no_restatement unknown_restatement : Error

unfoldable pub report : Project → String → Result Error Exposure
report project name = elim (lookup name project) [ none ↦ err unknown_report | some e ↦ ok e ]

abbrev pub named_owner : Exposure → Result Error String
named_owner e = let owner = strip e.owner in if truthy owner then ok owner else err no_owner

unfoldable pub report_owner : Project → String → Result Error String
unfolding report
report_owner project name = report project name >>= named_owner

pub data Restatement : Type 0 where
  restate carry_forward : Restatement

abbrev pub declared_restatement : Option String → Result Error Restatement
declared_restatement none = err no_restatement
declared_restatement (some value) =
    if value == "restate"
    then ok restate
    else if value == "carry_forward"
    then ok carry_forward
    else err unknown_restatement

unfoldable pub restatement_policy : Project → String → Result Error Restatement
unfolding report
restatement_policy project name = report project name >>= λ e. declared_restatement e.restatement
