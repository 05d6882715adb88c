-- ===== src/Lifecycle/Publication.antt =====
-- When the publication gate refuses, and how transitions open and close it.
use reporting_platform_local.Common.{
  Bool, true, false, ◌&&◌, none, some, List, ◌≡◌, ◌≢◌, ◌↔◌, ap, arith, String, Date, ok, err,
  string_eq, date_eq,
}
use reporting_platform_local.Lifecycle.Registry.{
  State, locked, submitted, reopened, state_eq, Pair, Registry, Project, restate, carry_forward,
  restatement_needed, report, report_owner, restatement_policy,
}
use reporting_platform_local.Lifecycle.Transitions.{
  closed, writable, state, Request, Stamp, transition,
}
use reporting_platform_local.Lifecycle.Inputs.{inputs_changed}
use reporting_platform_local.Lifecycle.Gate.{Verdict, check_publishable}
use reporting_platform_local.Lifecycle.Authority.{IsFresh, state-transition, transition_appends}

report_owner_faults :
    (project : Project) (name : String) → report_owner project name ≢ err restatement_needed
unfolding report_owner report
report_owner_faults project name h = ground arith

restatement_policy_faults :
    (project : Project) (name : String) → restatement_policy project name ≢ err restatement_needed
unfolding restatement_policy report
restatement_policy_faults project name h = ground arith

abbrev pub has_owner : Project → String → Bool
has_owner project name = elim (report_owner project name) [ ok _ ↦ true | err _ ↦ false ]

-- A report must be reopened before it is published: its policy is `restate`, its date is closed
-- and its inputs have moved. (A submitted date names the owner whom the refusal refers to.)
abbrev pub MustReopen : Project → String → State → Bool → Type 0
MustReopen project name now changed =
    (restatement_policy project name ≡ ok restate)
    × (closed now ≡ true)
    × (changed ≡ true)
    × (now ≡ submitted → has_owner project name ≡ true)

-- The gate refuses a publication exactly when the date must be reopened first.
pub check_publishable_refuses :
    (project : Project) (registry : Registry) (name : String) (d : Date) (candidate : List Pair)
    → (check_publishable project registry name d candidate ≡ err restatement_needed)
      ↔ MustReopen project name
          (state registry name d).state
          (inputs_changed registry name d candidate).changed
unfolding check_publishable
check_publishable_refuses project registry name d candidate = (
  λ h. (
    ground (arith, restatement_policy_faults project name, report_owner_faults project name),
    ground (arith, restatement_policy_faults project name),
    ground (arith, restatement_policy_faults project name),
    λ sent.
        ground (arith, restatement_policy_faults project name, report_owner_faults project name),
  ),
  λ h. ground arith,
)

-- Where the gate lets a publication pass, it reports a change exactly on a closed date whose inputs
-- have moved; such a publication is carried forward, and no other is.
pub check_publishable_verdict :
    (project : Project) (registry : Registry) (name : String) (d : Date) (candidate : List Pair)
    (v : Verdict)
    → check_publishable project registry name d candidate ≡ ok v
    → (v.changed ≡ (
        closed (state registry name d).state && (inputs_changed registry name d candidate).changed))
      × (v.carried_forward ≡ v.changed)
      × (restatement_policy project name ≡ ok v.restatement)
      × (v.carried_forward ≡ true → v.restatement ≡ carry_forward)
unfolding check_publishable
check_publishable_verdict project registry name d candidate v h =
    (ground arith, ground arith, ground arith, ground arith)

-- A transition leaves the inputs alone.
inputs-transition :
    (lower : String → String) (project : Project) (registry next : Registry) (q : Request)
    (s : Stamp) (candidate : List Pair)
    → transition lower project registry q s ≡ ok next
    → inputs_changed next q.report q.as_at_date candidate
      ≡ inputs_changed registry q.report q.as_at_date candidate
unfolding inputs_changed
inputs-transition lower project registry next q s candidate h =
    let (_, _, same) = transition_appends lower project registry next q s h in
    ap (λ r. inputs_changed r q.report q.as_at_date candidate) same

-- The verdict on a date that has been reopened
abbrev pub reopened_verdict : Verdict
reopened_verdict = record {
  state = reopened;
  restatement = restate;
  carried_forward = false;
  changed = false;
  delta = none;
}

check_publishable_reopened :
    (project : Project) (registry : Registry) (name : String) (d : Date) (candidate : List Pair)
    → restatement_policy project name ≡ ok restate
    → (state registry name d).state ≡ reopened
    → check_publishable project registry name d candidate ≡ ok reopened_verdict
unfolding check_publishable
check_publishable_reopened project registry name d candidate policy now = ground arith

-- The gate after a transition whose row has the latest stamp, for a report whose policy is
-- `restate`: after a successful `reopened` the gate passes every candidate, as that of a reopened
-- date, with no change and no carry forward; after a successful `locked` it refuses exactly the
-- candidates that have moved.
pub gate-transition :
    (lower : String → String) (project : Project) (registry next : Registry) (q : Request)
    (s : Stamp) (candidate : List Pair)
    → transition lower project registry q s ≡ ok next
    → IsFresh s registry.transitions
    → restatement_policy project q.report ≡ ok restate
    → (writable q.to ≡ some reopened
        → check_publishable project next q.report q.as_at_date candidate ≡ ok reopened_verdict)
      × (writable q.to ≡ some locked
          → (check_publishable project next q.report q.as_at_date candidate
              ≡ err restatement_needed)
            ↔ ((inputs_changed registry q.report q.as_at_date candidate).changed ≡ true))
gate-transition lower project registry next q s candidate h fresh policy =
    let (to, _, same) = transition_appends lower project registry next q s h in
    let (now, _) = state-transition lower project registry next q s h fresh in
    let gate = check_publishable_refuses project next q.report q.as_at_date candidate in
    let moved = inputs-transition lower project registry next q s candidate h in
    (
      λ to_reopened.
          let open_now : (state next q.report q.as_at_date).state ≡ reopened = ground arith in
          check_publishable_reopened project next q.report q.as_at_date candidate policy open_now,
      λ to_locked.
          let locked_now : (state next q.report q.as_at_date).state ≡ locked = ground arith in
          (
            λ refused. ground (arith, gate.0 refused, moved),
            λ changed.
                gate.1 (policy, ground arith, ground (arith, moved), λ sent. absurd (ground arith)),
          ),
    )
