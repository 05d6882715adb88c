-- ===== src/Lifecycle/Relock.antt =====
-- The approver rule looks at the current state alone, so a lock takes it away.
use reporting_platform_local.Common.{
  true, none, some, ◌∷◌, ◌≡◌, refl, ap, arith, String, Date, ok, strip, truthy, string_eq, date_eq,
  nat_order, pair_order,
}
use reporting_platform_local.Lifecycle.Registry.{
  State, locked, submitted, reopened, state_eq, Registry, Project, Exposure, report,
}
use reporting_platform_local.Lifecycle.Transitions.{
  writable, state_of_row, state, Request, Stamp, row, approve, authorise, transition, lock, reopen,
}
use reporting_platform_local.Lifecycle.Authority.{IsFresh, current-row}

abbrev pub request_to : String → String → Date → String → String → Request
request_to to name d actor reason = record {
  report = name;
  as_at_date = d;
  to = to;
  actor = actor;
  reason = reason;
  approved_by = none;
  submission_id = none;
}

abbrev pub with_row : Registry → Request → State → Stamp → Registry
with_row registry q to s = record registry { transitions = row q to s ∷ registry.transitions }

writable_locked : writable "locked" ≡ some locked
unfolding writable string_eq
writable_locked = refl

writable_reopened : writable "reopened" ≡ some reopened
unfolding writable string_eq
writable_reopened = refl

row_is_current :
    (q : Request) (to : State) (s : Stamp) (registry : Registry)
    → IsFresh s registry.transitions
    → (state (with_row registry q to s) q.report q.as_at_date).state ≡ to
unfolding state
row_is_current q to s registry fresh =
    ap (λ o. (state_of_row o).state) (current-row q to s registry.transitions fresh)

module _ (lower : String → String) (project : Project) (name : String) (d : Date)
    (actor reason : String) {exposure : Exposure} (known : report project name ≡ ok exposure)
    (named : truthy (strip actor) ≡ true) (given : truthy (strip reason) ≡ true) where
  lock_succeeds :
      (registry : Registry) (s : Stamp)
      → lock lower project registry name d actor reason s
        ≡ ok (with_row registry (request_to "locked" name d actor reason) locked s)
  unfolding lock transition authorise approve state_eq
  lock_succeeds registry s = ground (arith, writable_locked)

  reopen_succeeds :
      (registry : Registry) (s : Stamp)
      → (state registry name d).state ≡ locked
      → reopen lower project registry name d actor reason none s
        ≡ ok (with_row registry (request_to "reopened" name d actor reason) reopened s)
  unfolding reopen transition authorise approve state_eq
  reopen_succeeds registry s now = ground (arith, writable_reopened, now)

  -- A submitted date may be locked by anyone who gives a name and a reason, and then reopened
  -- by them with no approver, whoever the declared owner is.
  pub submitted_reopens_unapproved :
      (registry : Registry) (s t : Stamp)
      → (state registry name d).state ≡ submitted
      → IsFresh s registry.transitions
      → IsFresh t (with_row registry (request_to "locked" name d actor reason) locked s).transitions
      → (between after : Registry) × (lock lower project registry name d actor reason s
          ≡ ok between)
        × (reopen lower project between name d actor reason none t ≡ ok after)
        × ((state after name d).state ≡ reopened)
  submitted_reopens_unapproved registry s t sent fresh fresh' =
      let between = with_row registry (request_to "locked" name d actor reason) locked s in
      let after = with_row between (request_to "reopened" name d actor reason) reopened t in
      let now = row_is_current (request_to "locked" name d actor reason) locked s registry fresh in
      (
        between,
        after,
        lock_succeeds registry s,
        reopen_succeeds between t now,
        row_is_current (request_to "reopened" name d actor reason) reopened t between fresh',
      )
