-- ===== src/Lifecycle/Audit.antt =====
-- Every registry that transitions can reach has an audit trail: who, why, and by whose approval.
use reporting_platform_local.Common.{
  true, some, List, [], ◌∷◌, ◌≡◌, ◌≢◌, refl, arith, String, ok, or_empty, or_none, strip, truthy,
  string_eq,
}
use reporting_platform_local.Lifecycle.Registry.{
  State, «open», submitted, reopened, Transition, Registry, Project, report_owner,
}
use reporting_platform_local.Lifecycle.Transitions.{
  closed, writable, current, state_of_row, state, Request, Stamp, row, transition,
}
use reporting_platform_local.Lifecycle.Authority.{IsAuthorised, transition_appends}

-- The state of a report's date before a row, given the rows that came before it.
abbrev pub state_before : List Transition → Transition → State
state_before older t = (state_of_row (current older t.report t.as_at_date)).state

-- What a row shows of the decision that it records.
pub record IsDecision (lower : String → String) (project : Project) (older : List Transition)
    (t : Transition) : Type 0 where
  pub actor : truthy t.actor ≡ true
  pub reason : truthy t.reason ≡ true
  pub not_open : t.state ≢ «open»
  pub from_closed : t.state ≡ reopened → closed (state_before older t) ≡ true
  pub approved :
      t.state ≡ reopened
      → state_before older t ≡ submitted
      → (owner : String) × (report_owner project t.report ≡ ok owner)
        × (lower (or_empty t.approved_by) ≡ lower owner)

abbrev pub IsAudited : (String → String) → Project → List Transition → Type 0
IsAudited lower project [] = Unit
IsAudited lower project (t ∷ ts) = IsDecision lower project ts t × IsAudited lower project ts

module _ (lower : String → String) (project : Project) where
  pub data Step : Registry → Registry → Type 0 where
    move :
        {registry next : Registry} (q : Request) (s : Stamp)
        → transition lower project registry q s ≡ ok next
        → Step registry next

  pub data Reach (registry : Registry) : Registry → Type 0 where
    start : Reach registry registry
    later :
        {between next : Registry} → Reach registry between → Step between next → Reach registry next

or_empty-or_none : (s : String) → or_empty (or_none s) ≡ s
or_empty-or_none String.[] = refl
or_empty-or_none (String.◌∷◌ c s) = refl

writable-ne-open : (to : String) → writable to ≢ some «open»
unfolding writable
writable-ne-open to h = ground arith

row-IsDecision :
    (lower : String → String) (project : Project) (registry : Registry) (q : Request) (to : State)
    (s : Stamp)
    → IsAuthorised lower project (state registry q.report q.as_at_date).state to q
    → IsDecision lower project registry.transitions (row q to s)
unfolding state
row-IsDecision lower project registry q to s h = record {
  actor = h.actor;
  reason = h.reason;
  not_open = λ e. ground (arith, h.by_name, writable-ne-open q.to);
  from_closed = h.from_closed;
  approved = λ e f. rw (or_empty-or_none (strip (or_empty q.approved_by))) (h.approved e f);
}

Step-IsAudited :
    (lower : String → String) (project : Project) {registry next : Registry}
    → Step lower project registry next
    → IsAudited lower project registry.transitions
    → IsAudited lower project next.transitions
Step-IsAudited lower project (move {registry = r} {next = n} q s e) h =
    let (to, allowed, same) = transition_appends lower project r n q s e in
    rw same (row-IsDecision lower project r q to s allowed, h)

-- From a registry whose trail is complete, transitions reach only registries with a complete trail:
-- each row has an actor and a reason, a date was closed before it was reopened, and the reopening
-- of a submitted date bears the approval of the report's owner.
pub Reach-IsAudited :
    (lower : String → String) (project : Project) {registry next : Registry}
    → IsAudited lower project registry.transitions
    → Reach lower project registry next
    → IsAudited lower project next.transitions
Reach-IsAudited lower project h start = h
Reach-IsAudited lower project h (later r st) =
    Step-IsAudited lower project st (Reach-IsAudited lower project h r)
