-- ===== src/Lifecycle/Authority.antt =====
-- Who may move an as-at date, and what a transition leaves behind.
use reporting_platform_local.Common.{
  true, false, ◌&&◌, some, List, [], ◌∷◌, ◌≡◌, ap, subst, arith, String, ◌==◌, Option-cases,
  Result-cases, inl, inr, less, filter, All, Date, ok, first_step, or_empty, strip, truthy,
  string_eq, date_eq, nat_order, pair_order,
}
use reporting_platform_local.Lifecycle.Registry.{
  State, submitted, reopened, state_eq, Transition, Registry, Project, report, report_owner,
}
use reporting_platform_local.Lifecycle.Transitions.{
  closed, writable, stamp, state_of_row, latest, is_for, current, state, Request, Stamp, row,
  approve, authorise, transition,
}

-- The registry stamps each row after those before it.
abbrev pub IsFresh : Stamp → List Transition → Type 0
IsFresh s = All (λ t. less (stamp t) (s.occurred_at, s.transition_id) ≡ true)

IsFresh-filter :
    (s : Stamp) (report : String) (d : Date) (ts : List Transition)
    → IsFresh s ts
    → IsFresh s (filter (is_for report d) ts)
IsFresh-filter s report d [] h = tt
IsFresh-filter s report d (t ∷ ts) (h, hs) = ground (arith, IsFresh-filter s report d ts hs)

latest-IsFresh :
    (s : Stamp) (ts : List Transition) (u : Transition)
    → IsFresh s ts
    → latest ts ≡ some u
    → less (stamp u) (s.occurred_at, s.transition_id) ≡ true
unfolding latest
latest-IsFresh s [] u h e = absurd (cc)
latest-IsFresh s (t ∷ ts) u (h, hs) e = elim (Option-cases (latest ts)) [
  | inl q ↦ ground (arith, q)
  | inr (v, q) ↦ ground (arith, q, latest-IsFresh s ts v hs q)
]

-- What a transition to a state has established, from the state that the date was in.
pub record IsAuthorised (lower : String → String) (project : Project) (from to : State)
    (q : Request) : Type 0 where
  pub by_name : writable q.to ≡ some to
  pub actor : truthy (strip q.actor) ≡ true
  pub reason : truthy (strip q.reason) ≡ true
  pub from_closed : to ≡ reopened → closed from ≡ true
  pub approved :
      to ≡ reopened
      → from ≡ submitted
      → (owner : String) × (report_owner project q.report ≡ ok owner)
        × (lower (strip (or_empty q.approved_by)) ≡ lower owner)

pub current-row :
    (q : Request) (to : State) (s : Stamp) (rows : List Transition)
    → IsFresh s rows
    → current (row q to s ∷ rows) q.report q.as_at_date ≡ some (row q to s)
unfolding current latest
current-row q to s rows fresh =
    let mine = filter (is_for q.report q.as_at_date) rows in
    elim (Option-cases (latest mine)) [
      | inl e ↦ ground (arith, e)
      | inr (u, e) ↦
          ground (
            arith,
            e,
            latest-IsFresh s mine u (IsFresh-filter s q.report q.as_at_date rows fresh) e,
          )
    ]

current_other :
    (q : Request) (to : State) (s : Stamp) (rows : List Transition) (report : String) (d : Date)
    → (report == q.report && d == q.as_at_date) ≡ false
    → current (row q to s ∷ rows) report d ≡ current rows report d
unfolding current
current_other q to s rows report d h = ground arith

module _ (lower : String → String) where
  approve_sound :
      (project : Project) (q : Request)
      → approve lower project q reopened submitted ≡ ok tt
      → (owner : String) × (report_owner project q.report ≡ ok owner)
        × (lower (strip (or_empty q.approved_by)) ≡ lower owner)
  unfolding approve state_eq
  approve_sound project q h = elim (Result-cases (report_owner project q.report)) [
    | inl (owner, e) ↦ (owner, e, ground (arith, e))
    | inr (fault, e) ↦ absurd (ground (arith, e))
  ]

  authorise_approves :
      (project : Project) (registry : Registry) (q : Request) (to : State)
      → authorise lower project registry q ≡ ok to
      → approve lower project q to (state registry q.report q.as_at_date).state ≡ ok tt
  unfolding authorise
  authorise_approves project registry q to h = ground arith

  authorise_sound :
      (project : Project) (registry : Registry) (q : Request) (to : State)
      → authorise lower project registry q ≡ ok to
      → IsAuthorised lower project (state registry q.report q.as_at_date).state to q
  unfolding authorise
  authorise_sound project registry q to h = record {
    by_name = ground arith;
    actor = ground arith;
    reason = ground arith;
    from_closed = ground arith;
    approved = λ p r. approve_sound project q (
        subst (λ t. approve lower project q t submitted ≡ ok tt) p
          (subst (λ f. approve lower project q to f ≡ ok tt) r
            (authorise_approves project registry q to h)));
  }

  -- A successful transition was authorised, appends its own row and changes no other table.
  pub transition_appends :
      (project : Project) (registry next : Registry) (q : Request) (s : Stamp)
      → transition lower project registry q s ≡ ok next
      → (to : State) × IsAuthorised lower project (state registry q.report q.as_at_date).state to q
        × (next ≡ record registry { transitions = row q to s ∷ registry.transitions })
  unfolding transition
  transition_appends project registry next q s h =
      let (to, allowed, same) = first_step (authorise lower project registry q) _ h in
      (to, authorise_sound project registry q to allowed, ground arith)

  -- After a transition whose row has the latest stamp, the date is in the state that was asked for,
  -- and every other report and date is in the state that it was in.
  pub state-transition :
      (project : Project) (registry next : Registry) (q : Request) (s : Stamp)
      → transition lower project registry q s ≡ ok next
      → IsFresh s registry.transitions
      → (writable q.to ≡ some (state next q.report q.as_at_date).state)
        × ((report : String) (d : Date)
            → (report == q.report && d == q.as_at_date) ≡ false
            → state next report d ≡ state registry report d)
  unfolding state
  state-transition project registry next q s h fresh =
      let (to, allowed, same) = transition_appends project registry next q s h in
      (
        rw same (rw (current-row q to s registry.transitions fresh) allowed.by_name),
        λ report d other.
            rw same (ap state_of_row (current_other q to s registry.transitions report d other)),
      )
