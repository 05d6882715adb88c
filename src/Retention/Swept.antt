-- ===== src/Retention/Swept.antt =====
-- What the sweeps delete, on every outcome.
use reporting_platform_local.Common.{
  Listed, ℕ, Bool, true, false, Option, none, some, List, [], ◌∷◌, ◌++◌, map, filter, All, String,
  less, Result, ok, err, ◌>>=◌, Date, string_eq, nat_eq, option_eq, date_order, contains, ◌≡◌, ◌⊎◌,
  inl, inr, refl, arith, Result-cases, Option-cases, first_step,
}
use reporting_platform_local.Retention.Windows.{Fault, TagPolicy, tag_retention_years}
use reporting_platform_local.Retention.References.{tag, Reference, Sweep, sweep, started, match_tag}
use reporting_platform_local.Retention.Sweeps.{
  Platform, seconds_of_years, tag_age, outlived, tag_expired, expire_tags,
}

-- `expired` answers that the reference is removed.
abbrev pub is_expired : Result Fault Bool → Bool
is_expired (ok b) = b
is_expired (err fault) = false

abbrev pub names_of : (Reference → Result Fault Bool) → List Reference → List String
names_of expired refs = map (λ ref. ref.name) (filter (λ ref. is_expired (expired ref)) refs)

-- A dry run deletes nothing, and ends as the sweep does, but where the sweep cannot delete one of
-- the references.
abbrev pub IsRehearsal : (String → Option Fault) → List Reference → Sweep → Sweep → Type 0
IsRehearsal refused refs dry wet =
    (dry.deleted ≡ [])
    × ((dry.removed ≡ wet.removed)
        ⊎ ((ref : Reference) × Listed ref refs
            × ((fault : Fault) × (refused ref.name ≡ some fault) × (wet.removed ≡ err fault))))

module _ (expired : Reference → Result Fault Bool) (refused : String → Option Fault) where
  Listed-later :
      (r : Reference) (refs : List Reference) (name : String)
      → (ref : Reference) × Listed ref refs × (ref.name ≡ name) × (expired ref ≡ ok true)
      → (ref : Reference) × Listed ref (r ∷ refs) × (ref.name ≡ name) × (expired ref ≡ ok true)
  Listed-later r refs name (ref, listed, same, e) = (ref, inr listed, same, e)

  -- What a sweep deletes was listed and is expired.
  pub deleted-Listed :
      (dry_run : Bool) (refs : List Reference) (name : String)
      → contains (sweep expired refused dry_run refs).deleted name ≡ true
      → (ref : Reference) × Listed ref refs × (ref.name ≡ name) × (expired ref ≡ ok true)
  unfolding sweep
  deleted-Listed dry_run [] name h = cc
  deleted-Listed dry_run (r ∷ refs) name h = elim (Result-cases (expired r)) [
    | inr (fault, e) ↦ absurd (ground arith)
    | inl (true, e) ↦
        let refusal = Option-cases (refused r.name) in
        let either : (r.name ≡ name)
            ⊎ (contains (sweep expired refused dry_run refs).deleted name ≡ true) =
          ground (arith, refusal) in
        elim either [
          | inl same ↦ (r, inl refl, same, e)
          | inr later ↦ Listed-later r refs name (deleted-Listed dry_run refs name later)
        ]
    | inl (false, e) ↦ Listed-later r refs name (deleted-Listed dry_run refs name (ground arith))
  ]

  pub removed_sweep :
      (dry_run : Bool) (refs : List Reference) (names : List String)
      → (sweep expired refused dry_run refs).removed ≡ ok names
      → names ≡ names_of expired refs
  unfolding sweep
  removed_sweep dry_run [] names h = ground arith
  removed_sweep dry_run (r ∷ refs) names h =
      elim (Result-cases (sweep expired refused dry_run refs).removed) [
        | inr (fault, e) ↦ absurd (ground arith)
        | inl (later, e) ↦ ground (arith, removed_sweep dry_run refs later e)
      ]

  pub sweep-IsRehearsal :
      (refs : List Reference)
      → IsRehearsal refused refs
          (sweep expired refused true refs)
          (sweep expired refused false refs)
  unfolding sweep
  sweep-IsRehearsal [] = (refl, inl refl)
  sweep-IsRehearsal (r ∷ refs) =
      let (nothing, rest) = sweep-IsRehearsal refs in
      elim (Result-cases (expired r)) [
        | inr (fault, e) ↦ (ground arith, inl (ground arith))
        | inl (false, e) ↦ elim rest [
          | inl same ↦ (ground arith, inl (ground arith))
          | inr (ref, listed, (fault, f, raised)) ↦
              (ground arith, inr (ref, inr listed, (fault, f, ground arith)))
        ]
        | inl (true, e) ↦ elim (Option-cases (refused r.name)) [
          | inr (fault, f) ↦ (ground arith, inr (r, inl refl, (fault, f, ground arith)))
          | inl gone ↦ elim rest [
            | inl same ↦ (ground arith, inl (ground arith))
            | inr (ref, listed, (fault, f, raised)) ↦
                (ground arith, inr (ref, inr listed, (fault, f, ground arith)))
          ]
        ]
      ]

  pub sweep_completes :
      (refs : List Reference) (names : List String)
      → (sweep expired refused false refs).removed ≡ ok names
      → (sweep expired refused false refs).deleted ≡ names
  unfolding sweep
  sweep_completes [] names h = ground arith
  sweep_completes (r ∷ refs) names h =
      elim (Result-cases (sweep expired refused false refs).removed) [
        | inr (fault, e) ↦ absurd (ground arith)
        | inl (later, e) ↦ ground (arith, sweep_completes refs later e)
      ]

  -- A reference is kept, or it is expired and Nessie deletes it.
  abbrev pub IsSettled : Reference → Type 0
  IsSettled r = (expired r ≡ ok false) ⊎ ((expired r ≡ ok true) × (refused r.name ≡ none))

  -- A reference that cannot be judged stops the sweep after the ones before it are gone.
  pub sweep_stops :
      (before : List Reference) (ref : Reference) (after : List Reference) (fault : Fault)
      → All IsSettled before
      → expired ref ≡ err fault
      → ((sweep expired refused false (before ++ ref ∷ after)).deleted ≡ names_of expired before)
        × ((sweep expired refused false (before ++ ref ∷ after)).removed ≡ err fault)
  unfolding sweep
  sweep_stops [] ref after fault judged e = (ground arith, ground arith)
  sweep_stops (r ∷ before) ref after fault (j, judged) e =
      let rest = sweep_stops before ref after fault judged e in
      (ground (arith, j, rest), ground (arith, j, rest))

pub started-IsRehearsal :
    {A : Type 0} (refused : String → Option Fault) (refs : List Reference) (r : Result Fault A)
    (dry wet : A → Sweep)
    → ((a : A) → IsRehearsal refused refs (dry a) (wet a))
    → IsRehearsal refused refs (started r dry) (started r wet)
started-IsRehearsal refused refs (err fault) dry wet each = (refl, inl refl)
started-IsRehearsal refused refs (ok a) dry wet each = each a

module _ (platform : Platform) where
  -- What it takes for a published tag to be deleted
  abbrev pub Outlived : String → TagPolicy → Reference → Type 0
  Outlived env policy ref =
      (report : Option String) × (bd : String) × (match_tag platform.digit ref.name
        ≡ some (report, bd))
      × ((years : ℕ) × (tag_retention_years env policy report ≡ ok years)
          × ((cob_date : Date) × (platform.strptime bd ≡ some cob_date)
              × (less (tag_age platform ref cob_date) (platform.day_before (seconds_of_years years))
                  ≡ true)))

  old_of_outlived :
      (ref : Reference) (years : ℕ) (bd : String)
      → outlived platform ref years bd ≡ ok true
      → (cob_date : Date) × (platform.strptime bd ≡ some cob_date)
        × (less (tag_age platform ref cob_date) (platform.day_before (seconds_of_years years))
            ≡ true)
  unfolding outlived
  old_of_outlived ref years bd h = elim (Option-cases (platform.strptime bd)) [
    | inl e ↦ absurd (ground arith)
    | inr (cob_date, e) ↦ (cob_date, e, ground arith)
  ]

  tag_expired-Outlived :
      (env : String) (policy : TagPolicy) (ref : Reference)
      → tag_expired platform env policy ref ≡ ok true
      → (ref.kind ≡ tag) × Outlived env policy ref
  unfolding tag_expired
  tag_expired-Outlived env policy ref h = elim (Option-cases (match_tag platform.digit ref.name)) [
    | inl e ↦ absurd (ground arith)
    | inr ((report, bd), e) ↦
        let is_tag : ref.kind ≡ tag = ground arith in
        let judged : (tag_retention_years env policy report >>= λ years.
        outlived platform ref years bd)
            ≡ ok true =
          ground arith in
        let (years, window, old) =
          first_step (tag_retention_years env policy report)
            (λ years. outlived platform ref years bd) judged in
        (is_tag, (report, bd, e, (years, window, old_of_outlived ref years bd old)))
  ]

  -- The sweep of published tags deletes nothing but tags that it recognises and that have outlived
  -- their window, on every outcome, also when it is refused on the way: of each deleted name there
  -- is a listed tag with the name of a publication, whose window of years could be read, and which
  -- was committed (or, with no readable commit time, is about a date) before the window began.
  pub expire_tags_deletes :
      (env : String) (policy : TagPolicy) (dry_run : Bool) (refs : List Reference) (name : String)
      → contains (expire_tags platform env policy dry_run refs).deleted name ≡ true
      → (ref : Reference) × Listed ref refs
        × (ref.name ≡ name)
        × (ref.kind ≡ tag)
        × Outlived env policy ref
  unfolding expire_tags
  expire_tags_deletes env policy dry_run refs name h =
      let (ref, listed, same, old) =
        deleted-Listed (tag_expired platform env policy) platform.delete_reference dry_run refs name
          h in
      let (is_tag, outlived) = tag_expired-Outlived env policy ref old in
      (ref, listed, same, is_tag, outlived)

  -- A sweep of published tags that is not refused returns the names of the expired ones, in the
  -- order of the listing, and unless it is a dry run these are what it deleted.
  pub expire_tags_returns :
      (env : String) (policy : TagPolicy) (refs : List Reference) (names : List String)
      → (expire_tags platform env policy false refs).removed ≡ ok names
      → (names ≡ names_of (tag_expired platform env policy) refs)
        × ((expire_tags platform env policy false refs).deleted ≡ names)
  unfolding expire_tags
  expire_tags_returns env policy refs names h = (
    removed_sweep (tag_expired platform env policy) platform.delete_reference false refs names h,
    sweep_completes (tag_expired platform env policy) platform.delete_reference refs names h,
  )

  -- A tag whose window or date cannot be read refuses the rest of the sweep, but not what came
  -- before it: where every earlier reference can be judged, and deleted if it is expired, the expired
  -- ones among them are deleted, and the sweep raises.
  pub expire_tags_stops :
      (env : String) (policy : TagPolicy) (before : List Reference) (ref : Reference)
      (after : List Reference) (fault : Fault)
      → All (IsSettled (tag_expired platform env policy) platform.delete_reference) before
      → tag_expired platform env policy ref ≡ err fault
      → ((expire_tags platform env policy false (before ++ ref ∷ after)).deleted
          ≡ names_of (tag_expired platform env policy) before)
        × ((expire_tags platform env policy false (before ++ ref ∷ after)).removed ≡ err fault)
  unfolding expire_tags
  expire_tags_stops env policy =
      sweep_stops (tag_expired platform env policy) platform.delete_reference
