-- ===== src/Retention/Abandoned.antt =====
-- What the sweep of working branches deletes, and what a dry run of each sweep does.
use reporting_platform_local.Common.{
  Listed, ℕ, ◌*◌, ◌+◌, ◌≤◌, Bool, true, false, Option, some, List, String, ok, string_eq, nat_eq,
  option_eq, date_order, or_empty, contains, ◌≡◌, ◌≢◌, inl, inr, arith, Result-cases, Option-cases,
}
use reporting_platform_local.Retention.Windows.{Value, TagPolicy, years_of}
use reporting_platform_local.Retention.References.{branch, Reference, sweep}
use reporting_platform_local.Retention.Sweeps.{
  Platform, tag_expired, expire_tags, snapshot_expired, expire_snapshot_tags, Hours, WorkingWindows,
  abandoned_after_hours, working_window, abandoned, branch_expired, clean_working_branches,
  or_missing,
}
use reporting_platform_local.Retention.Swept.{
  deleted-Listed, IsRehearsal, sweep-IsRehearsal, started-IsRehearsal,
}

module _ (platform : Platform) where
  -- What it takes for a working branch to be deleted
  abbrev pub Abandoned : WorkingWindows → Reference → Type 0
  Abandoned windows ref =
      (ref.commits_ahead ≢ some 0)
      × ((window : ℕ) × (working_window platform windows ref.name ≡ some window)
          × ((instant : ℕ) × (platform.commit_instant (or_empty ref.commit_time) ≡ some instant)
              × (instant + window * 3600 ≤ platform.now)))

  old_of_abandoned :
      (window : ℕ) (ref : Reference)
      → abandoned platform window ref ≡ true
      → (instant : ℕ) × (platform.commit_instant (or_empty ref.commit_time) ≡ some instant)
        × (instant + window * 3600 ≤ platform.now)
  unfolding abandoned
  old_of_abandoned window ref h =
      elim (Option-cases (platform.commit_instant (or_empty ref.commit_time))) [
        | inl e ↦ absurd (ground arith)
        | inr (instant, e) ↦ (instant, e, ground arith)
      ]

  branch_expired-Abandoned :
      (windows : WorkingWindows) (ref : Reference)
      → branch_expired platform windows ref ≡ ok true
      → (ref.kind ≡ branch) × Abandoned windows ref
  unfolding branch_expired
  branch_expired-Abandoned windows ref h =
      elim (Option-cases (working_window platform windows ref.name)) [
        | inl e ↦ absurd (ground arith)
        | inr (window, e) ↦
            let own : ref.commits_ahead ≢ some 0 = ground arith in
            let old : abandoned platform window ref ≡ true = ground arith in
            (ground arith, (own, (window, e, old_of_abandoned window ref old)))
      ]

  -- The sweep of working branches deletes nothing but abandoned working branches: of each deleted
  -- name there is a listed branch under a prefix that has a window, which is not known to have no
  -- commits of its own, and whose last commit has a readable time, older than the window. So a
  -- branch under another name, such as `hold/`, and a branch of unknown age are left alone.
  pub clean_working_branches_deletes :
      (hours : Hours) (dry_run : Bool) (refs : List Reference) (name : String)
      → contains (clean_working_branches platform hours dry_run refs).deleted name ≡ true
      → (windows : WorkingWindows) × (abandoned_after_hours platform hours ≡ ok windows)
        × ((ref : Reference) × Listed ref refs
            × (ref.name ≡ name)
            × (ref.kind ≡ branch)
            × Abandoned windows ref)
  unfolding clean_working_branches
  clean_working_branches_deletes hours dry_run refs name h =
      elim (Result-cases (abandoned_after_hours platform hours)) [
        | inr (fault, e) ↦ absurd (ground arith)
        | inl (windows, e) ↦
            let (ref, listed, same, old) =
              deleted-Listed (branch_expired platform windows) platform.delete_reference dry_run
                refs name (ground arith) in
            let (is_branch, reasons) = branch_expired-Abandoned windows ref old in
            (windows, e, (ref, listed, same, is_branch, reasons))
      ]

  -- A dry run of any of the three sweeps deletes nothing, and returns the names that the sweep
  -- itself would, or raises as it would, with one exception: the sweep raises as well where Nessie
  -- does not delete one of the listed references, and then with what that deletion raises.
  pub dry_run_agrees :
      (env : String) (policy : TagPolicy) (keep_years : Option Value) (hours : Hours)
      (refs : List Reference)
      → IsRehearsal platform.delete_reference refs
          (expire_tags platform env policy true refs)
          (expire_tags platform env policy false refs)
        × IsRehearsal platform.delete_reference refs
            (expire_snapshot_tags platform env keep_years true refs)
            (expire_snapshot_tags platform env keep_years false refs)
        × IsRehearsal platform.delete_reference refs
            (clean_working_branches platform hours true refs)
            (clean_working_branches platform hours false refs)
  unfolding expire_tags expire_snapshot_tags clean_working_branches
  dry_run_agrees env policy keep_years hours refs = (
    sweep-IsRehearsal (tag_expired platform env policy) platform.delete_reference refs,
    started-IsRehearsal platform.delete_reference refs (years_of env (or_missing keep_years))
        (λ years. sweep (snapshot_expired platform years) platform.delete_reference true refs)
        (λ years. sweep (snapshot_expired platform years) platform.delete_reference false refs)
        (λ years.
          sweep-IsRehearsal (snapshot_expired platform years) platform.delete_reference refs),
    started-IsRehearsal platform.delete_reference refs (abandoned_after_hours platform hours)
        (λ windows. sweep (branch_expired platform windows) platform.delete_reference true refs)
        (λ windows. sweep (branch_expired platform windows) platform.delete_reference false refs)
        (λ windows.
          sweep-IsRehearsal (branch_expired platform windows) platform.delete_reference refs),
  )
