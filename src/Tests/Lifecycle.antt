-- ===== src/Tests/Lifecycle.antt =====
-- One report's date: locked, submitted, and reopened with its owner's approval.
use reporting_platform_local.Common.{
  ℕ, true, false, ◌&&◌, none, some, List, [], ◌∷◌, String, ◌≡◌, ◌↔◌, refl, lookup, Date, ok, err,
  strip, string_eq, date_eq, nat_eq, pair_eq, pair_order, nat_order, text_order, ℕ_discrete, ◌==◌,
}
use reporting_platform_local.Lifecycle.Registry.{
  locked, reopened, state_eq, Transition, Version, Registry, Pair, Project, restate,
  restatement_needed, report_owner, restatement_policy,
}
use reporting_platform_local.Lifecycle.Transitions.{
  writable, latest, current, state, Request, Stamp, approve, authorise, transition,
}
use reporting_platform_local.Lifecycle.Inputs.{in_force, inputs_changed}
use reporting_platform_local.Lifecycle.Gate.{check_publishable, Verdict}
use reporting_platform_local.Lifecycle.Authority.{state-transition}
use reporting_platform_local.Lifecycle.Movement.{Agrees, unchanged_iff}
use reporting_platform_local.Lifecycle.Publication.{
  MustReopen, check_publishable_refuses, reopened_verdict, gate-transition,
}
use reporting_platform_local.Lifecycle.Audit.{IsAudited, start, later, move, Reach-IsAudited}
use reporting_platform_local.Common.{truthy, nat_order}
use reporting_platform_local.Lifecycle.Registry.{report, submitted}
use reporting_platform_local.Lifecycle.Transitions.{lock, reopen}
use reporting_platform_local.Lifecycle.Authority.{IsFresh}
use reporting_platform_local.Lifecycle.Relock.{with_row, request_to, submitted_reopens_unapproved}

abbrev june : Date
june = record { year = 2026; month = 6; day = 30 }

abbrev may : Date
may = record { year = 2026; month = 5; day = 29 }

abbrev project : Project
project = ("exposure", record { owner = "Jane"; restatement = some "restate" }) ∷ []

abbrev lower : String → String
lower s = s

-- Version 1 was built from delivery a; delivery b is for another date.
abbrev published : Registry
published = record {
  transitions = [];
  versions = record { report = "exposure"; as_at_date = june; version_no = 1; run_id = "r1" } ∷ [];
  run_inputs =
      record { run_id = "r1"; feed_delivery = ("trade", "a") }
      ∷ record { run_id = "r1"; feed_delivery = ("trade", "b") }
      ∷ [];
  deliveries =
      record { feed_delivery = ("trade", "a"); cob_date = june }
      ∷ record { feed_delivery = ("trade", "b"); cob_date = may }
      ∷ record { feed_delivery = ("trade", "c"); cob_date = june }
      ∷ [];
}

abbrev request : String → Request
request to = record {
  report = "exposure";
  as_at_date = june;
  to = to;
  actor = " Jim ";
  reason = "close";
  approved_by = some "Jane";
  submission_id = none;
}

abbrev at : ℕ → Stamp
at n = record { transition_id = n; occurred_at = n }

abbrev locked_row : Transition
locked_row = record {
  transition_id = 1;
  report = "exposure";
  as_at_date = june;
  state = locked;
  occurred_at = 1;
  actor = "Jim";
  reason = "close";
  approved_by = some "Jane";
  submission_id = none;
}

abbrev closed_date : Registry
closed_date = record published { transitions = locked_row ∷ [] }

abbrev moved : List Pair
moved = ("trade", "a") ∷ ("trade", "b") ∷ ("trade", "c") ∷ []

program : Unit {0}
unfolding transition authorise approve state current latest check_publishable inputs_changed
    restatement_policy report_owner writable strip string_eq date_eq nat_eq pair_eq pair_order
    text_order state_eq lookup ℕ_discrete
program = tt

lock-published : transition lower project published (request "locked") (at 1) ≡ ok closed_date
unfolding program
lock-published = refl

refused : check_publishable project closed_date "exposure" june moved ≡ err restatement_needed
unfolding program
refused = refl

check_publishable_refuses_example :
    (check_publishable project closed_date "exposure" june moved ≡ err restatement_needed)
    ↔ MustReopen project "exposure"
        (state closed_date "exposure" june).state
        (inputs_changed closed_date "exposure" june moved).changed
check_publishable_refuses_example =
    check_publishable_refuses project closed_date "exposure" june moved

abbrev allowed : Verdict
allowed = record {
  state = locked;
  restatement = restate;
  carried_forward = false;
  changed = false;
  delta = some (record {
    changed = false;
    published_version = some 1;
    published_run = some "r1";
    added = [];
    removed = [];
    unregistered = ("trade", "z") ∷ [];
    off_date = 1;
  });
}

-- An unchanged input set, with a delivery of another date and one that is unknown.
abbrev unmoved : List Pair
unmoved = ("trade", "a") ∷ ("trade", "b") ∷ ("trade", "z") ∷ []

rebuilt : check_publishable project closed_date "exposure" june unmoved ≡ ok allowed
unfolding program
rebuilt = refl

declared : restatement_policy project "exposure" ≡ ok restate
unfolding program
declared = refl

-- The locked date is reopened.
abbrev reopened_date : Registry
reopened_date = record published {
  transitions =
      record locked_row {
        transition_id = 2;
        state = reopened;
        occurred_at = 2;
        approved_by = some "Jane";
      }
      ∷ locked_row
      ∷ [];
}

reopen-closed : transition lower project closed_date (request "reopened") (at 2) ≡ ok reopened_date
unfolding program
reopen-closed = refl

latest_stamp : IsFresh (at 2) closed_date.transitions
unfolding pair_order
latest_stamp = (refl, tt)

gate-transition_example :
    (writable "reopened" ≡ some reopened
      → check_publishable project reopened_date "exposure" june moved ≡ ok reopened_verdict)
    × (writable "reopened" ≡ some locked
        → (check_publishable project reopened_date "exposure" june moved ≡ err restatement_needed)
          ↔ ((inputs_changed closed_date "exposure" june moved).changed ≡ true))
gate-transition_example =
    gate-transition lower project closed_date reopened_date (request "reopened") (at 2) moved
      reopen-closed latest_stamp declared

state-transition_example :
    (writable "locked" ≡ some (state closed_date "exposure" june).state)
    × ((report : String) (d : Date)
        → (report == "exposure" && d == june) ≡ false
        → state closed_date report d ≡ state published report d)
state-transition_example =
    state-transition lower project published closed_date (request "locked") (at 1) lock-published tt

Reach-IsAudited_example : IsAudited lower project closed_date.transitions
Reach-IsAudited_example =
    Reach-IsAudited lower project {registry = published} tt
      (later start (move (request "locked") (at 1) lock-published))

version_1 :
    in_force published.versions "exposure" june
    ≡ some (record { report = "exposure"; as_at_date = june; version_no = 1; run_id = "r1" })
unfolding in_force string_eq date_eq ℕ_discrete
version_1 = refl

abbrev first : Version
first = record { report = "exposure"; as_at_date = june; version_no = 1; run_id = "r1" }

unchanged_iff_example :
    ((inputs_changed published "exposure" june unmoved).changed ≡ false)
    ↔ Agrees published first june unmoved
unchanged_iff_example = unchanged_iff published "exposure" june unmoved first version_1

abbrev submitted_date : Registry
submitted_date = record published { transitions = record locked_row { state = submitted } ∷ [] }

known : report project "exposure" ≡ ok (record { owner = "Jane"; restatement = some "restate" })
unfolding program
known = refl

sent : (state submitted_date "exposure" june).state ≡ submitted
unfolding program
sent = refl

later_stamps : IsFresh (at 2) submitted_date.transitions
unfolding program
later_stamps = (refl, tt)

latest_stamps :
    IsFresh
      (at 3)
      (with_row submitted_date
        (request_to "locked" "exposure" june "Jim" "close")
        locked
        (at 2)).transitions
unfolding program
latest_stamps = (refl, (refl, tt))

blank_free : (truthy (strip "Jim") ≡ true) × (truthy (strip "close") ≡ true)
unfolding strip nat_eq
blank_free = (refl, refl)

submitted_reopens_unapproved_example :
    (between after : Registry) × (lock lower project submitted_date "exposure" june "Jim" "close"
        (at 2)
      ≡ ok between)
    × (reopen lower project between "exposure" june "Jim" "close" none (at 3) ≡ ok after)
    × ((state after "exposure" june).state ≡ reopened)
submitted_reopens_unapproved_example =
    submitted_reopens_unapproved lower project "exposure" june "Jim" "close" known blank_free.0
      blank_free.1 submitted_date (at 2) (at 3) sent later_stamps latest_stamps
