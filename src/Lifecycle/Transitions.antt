-- ===== src/Lifecycle/Transitions.antt =====
-- `state`, `transition`, `lock` and `reopen` of lifecycle.py.
use reporting_platform_local.Common.{
  ℕ, Bool, true, false, not, ◌&&◌, ◌||◌, Option, none, some, List, [], ◌∷◌, String, ◌==◌,
  if◌then◌else◌, less, filter, Date, Result, ok, err, ◌>>=◌, ◌>>◌, refuse_if, or_empty, or_none,
  strip, truthy, string_eq, nat_eq, date_eq, nat_order, pair_order,
}
use reporting_platform_local.Lifecycle.Registry.{
  State, «open», locked, submitted, reopened, state_eq, Transition, Registry, Project, Error,
  not_writable, unattributed, nothing_to_reopen, not_approved, report, report_owner,
}

-- `state in CLOSED`
abbrev pub closed : State → Bool
closed locked = true
closed submitted = true
closed _ = false

-- `to in WRITABLE`: the states that may be written, by their names
unfoldable pub writable : String → Option State
writable to =
    if to == "locked"
    then some locked
    else if to == "submitted"
    then some submitted
    else if to == "reopened"
    then some reopened
    else none

-- `ORDER BY occurred_at DESC, transition_id DESC LIMIT 1`
abbrev pub stamp : Transition → ℕ × ℕ
stamp t = (t.occurred_at, t.transition_id)

unfoldable pub latest : List Transition → Option Transition
latest [] = none
latest (t ∷ ts) = elim (latest ts) [
  | none ↦ some t
  | some u ↦ if less (stamp u) (stamp t) then some t else some u
]

-- `WHERE report = %s AND as_at_date = %s`
abbrev pub is_for : String → Date → Transition → Bool
is_for report as_at_date t = t.report == report && t.as_at_date == as_at_date

unfoldable pub current : List Transition → String → Date → Option Transition
current rows report as_at_date = latest (filter (is_for report as_at_date) rows)

-- The dict that `state` returns, less the report and the date that it was asked about.
pub record Current : Type 0 where
  pub state : State
  pub since : Option ℕ
  pub actor : Option String
  pub reason : Option String
  pub approved_by : Option String
  pub submission_id : Option String

abbrev pub state_of_row : Option Transition → Current
state_of_row none = record {
  state = «open»;
  since = none;
  actor = none;
  reason = none;
  approved_by = none;
  submission_id = none;
}
state_of_row (some t) = record {
  state = t.state;
  since = some t.occurred_at;
  actor = some t.actor;
  reason = some t.reason;
  approved_by = t.approved_by;
  submission_id = t.submission_id;
}

unfoldable pub state : Registry → String → Date → Current
state registry report as_at_date = state_of_row (current registry.transitions report as_at_date)

-- The arguments of `transition`.
pub record Request : Type 0 where
  pub report : String
  pub as_at_date : Date
  pub to : String
  pub actor : String
  pub reason : String
  pub approved_by : Option String
  pub submission_id : Option String

-- What the database gives a new row: its serial number and the time.
pub record Stamp : Type 0 where
  pub transition_id : ℕ
  pub occurred_at : ℕ

-- The row that a request writes.
abbrev pub row : Request → State → Stamp → Transition
row q to s = record {
  transition_id = s.transition_id;
  report = q.report;
  as_at_date = q.as_at_date;
  state = to;
  occurred_at = s.occurred_at;
  actor = strip q.actor;
  reason = strip q.reason;
  approved_by = or_none (strip (or_empty q.approved_by));
  submission_id = q.submission_id;
}

-- `str.lower` folds the case of every script: its table is a parameter.
module _ (lower : String → String) where
  -- The approver rule: `REOPENED` from `SUBMITTED` wants the declared owner.
  unfoldable pub approve : Project → Request → State → State → Result Error (Unit {0})
  approve project q to from =
      if to == reopened && from == submitted
      then (do
        owner ← report_owner project q.report
        refuse_if (not (lower (strip (or_empty q.approved_by)) == lower owner)) not_approved)
      else ok tt

  -- What `transition` checks before it writes: the state to write, or the refusal.
  unfoldable pub authorise : Project → Registry → Request → Result Error State
  authorise project registry q = elim (writable q.to) [
    | none ↦ err not_writable
    | some to ↦ do
      known ← report project q.report
      refuse_if (not (truthy (strip q.actor)) || not (truthy (strip q.reason))) unattributed
      let from = (state registry q.report q.as_at_date).state
      refuse_if (to == reopened && not (closed from)) nothing_to_reopen
      approve project q to from
      ok to
  ]

  -- Appends a row, never updates one. `s` is the stamp that the insertion returns. The state is read
  -- on one connection and the row inserted on another: here they are one step.
  unfoldable pub transition : Project → Registry → Request → Stamp → Result Error Registry
  unfolding authorise
  transition project registry q s = do
    to ← authorise project registry q
    ok (record registry { transitions = row q to s ∷ registry.transitions })

  unfoldable pub lock :
      Project → Registry → String → Date → String → String → Stamp → Result Error Registry
  unfolding transition
  lock project registry report as_at_date actor reason s =
      transition project registry
        (record {
          report = report;
          as_at_date = as_at_date;
          to = "locked";
          actor = actor;
          reason = reason;
          approved_by = none;
          submission_id = none;
        })
        s

  unfoldable pub reopen :
      Project
      → Registry
      → String
      → Date
      → String
      → String
      → Option String
      → Stamp
      → Result Error Registry
  unfolding transition
  reopen project registry report as_at_date actor reason approved_by s =
      transition project registry
        (record {
          report = report;
          as_at_date = as_at_date;
          to = "reopened";
          actor = actor;
          reason = reason;
          approved_by = approved_by;
          submission_id = none;
        })
        s
