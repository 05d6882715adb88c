-- ===== src/Lifecycle/Gate.antt =====
-- `check_publishable` of lifecycle.py: may a report be published for an as-at date?
use reporting_platform_local.Common.{
  Bool, true, false, Option, none, some, List, String, Date, Result, ok, err, ◌>>=◌, ◌==◌,
  if◌then◌else◌,
}
use reporting_platform_local.Lifecycle.Registry.{
  State, submitted, state_eq, Pair, Registry, Project, Restatement, restate, carry_forward, Error,
  restatement_needed, report_owner, restatement_policy,
}
use reporting_platform_local.Lifecycle.Transitions.{closed, state}
use reporting_platform_local.Lifecycle.Inputs.{Delta, inputs_changed}

-- The dict that `check_publishable` returns, less its arguments; the delta of a closed date.
pub record Verdict : Type 0 where
  pub state : State
  pub restatement : Restatement
  pub carried_forward : Bool
  pub changed : Bool
  pub delta : Option Delta

-- The owner is named in the message when a submitted date is refused.
abbrev pub refuse_restatement : Project → String → State → Result Error Verdict
refuse_restatement project report now =
    if now == submitted
    then (report_owner project report >>= λ _. err restatement_needed)
    else err restatement_needed

-- A closed date whose inputs have moved. The log line of `carry_forward` names the owner.
abbrev pub apply_policy : Project → String → State → Delta → Restatement → Result Error Verdict
apply_policy project report now delta carry_forward = report_owner project report >>= λ _.
    ok (record {
      state = now;
      restatement = carry_forward;
      carried_forward = true;
      changed = true;
      delta = some delta;
    })
apply_policy project report now delta restate = refuse_restatement project report now

unfoldable pub check_publishable :
    Project → Registry → String → Date → List Pair → Result Error Verdict
check_publishable project registry report as_at_date candidate =
    let now = (state registry report as_at_date).state in
    let delta = inputs_changed registry report as_at_date candidate in
    restatement_policy project report >>= λ policy.
    if closed now
    then (if delta.changed
        then apply_policy project report now delta policy
        else ok (record {
          state = now;
          restatement = policy;
          carried_forward = false;
          changed = false;
          delta = some delta;
        }))
    else ok (record {
      state = now;
      restatement = policy;
      carried_forward = false;
      changed = false;
      delta = none;
    })
