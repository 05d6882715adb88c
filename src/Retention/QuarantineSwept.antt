-- ===== src/Retention/QuarantineSwept.antt =====
-- What the sweep of rejected deliveries deletes.
use reporting_platform_local.Common.{
  ℕ, Bool, true, false, Option, none, some, List, [], ◌∷◌, map, contains, String, less, Date,
  date_order, string_eq, nat_eq, Listed, Result, ok, err, ◌>>=◌, ◌≡◌, ◌⊎◌, inl, inr, refl, arith,
  Bool-cases, Result-cases, first_step,
}
use reporting_platform_local.Retention.Windows.{Fault}
use reporting_platform_local.Retention.Landing.{Object}
use reporting_platform_local.Retention.Sweeps.{seconds_of_years}
use reporting_platform_local.Retention.Quarantine.{
  Dates, QuarantineConfig, QuarantineTally, match_key, rejected_on, feed_of, keep_years, cutoff_for,
  judge, nothing, judge_all, delete_all, sweep_quarantine,
}

module _ (dates : Dates) (config : QuarantineConfig) where
  -- An object whose key has a date of rejection from before its feed's window
  abbrev pub IsOutdated : Object → Type 0
  IsOutdated obj =
      (when : Date) × (rejected_on dates obj.key ≡ some when)
      × ((years : ℕ) × (keep_years dates config (feed_of dates (match_key dates obj.key))
            ≡ ok years)
          × (less when (dates.day_before (seconds_of_years years)) ≡ true))

  judge-IsOutdated :
      (obj : Object) (found : Option Date) (tally after : QuarantineTally) (key : String)
      → rejected_on dates obj.key ≡ found
      → judge dates config obj found tally ≡ ok after
      → contains (map (λ o. o.key) after.expired) key ≡ true
      → (IsOutdated obj × (obj.key ≡ key)) ⊎ (contains (map (λ o. o.key) tally.expired) key ≡ true)
  unfolding cutoff_for
  judge-IsOutdated obj none tally after key e h m = inr (ground (arith, h, m))
  judge-IsOutdated obj (some when) tally after key e h m =
      elim (Result-cases (keep_years dates config (feed_of dates (match_key dates obj.key)))) [
        | inr (fault, y) ↦ absurd (ground (arith, h, y))
        | inl (years, y) ↦
            elim (Bool-cases (less when (dates.day_before (seconds_of_years years)))) [
              | inr recent ↦ inr (ground (arith, h, m, y, recent))
              | inl old ↦
                  let either : (obj.key ≡ key)
                      ⊎ (contains (map (λ o. o.key) tally.expired) key ≡ true) =
                    ground (arith, h, m, y, old) in
                  elim either [
                    | inl same ↦ inl ((when, e, (years, y, old)), same)
                    | inr later ↦ inr later
                  ]
            ]
      ]

  judge_all-IsOutdated :
      (objects : List Object) (tally : QuarantineTally) (key : String)
      → judge_all dates config objects ≡ ok tally
      → contains (map (λ o. o.key) tally.expired) key ≡ true
      → (obj : Object) × Listed obj objects × (obj.key ≡ key) × IsOutdated obj
  unfolding judge_all
  judge_all-IsOutdated [] tally key h m = absurd (ground (arith, h, m))
  judge_all-IsOutdated (obj ∷ objects) tally key h m =
      let (_, _, judged) =
        first_step (judge dates config obj (rejected_on dates obj.key) (nothing dates config)) _
          h in
      let (before, rest, last) =
        first_step (judge_all dates config objects)
          (judge dates config obj (rejected_on dates obj.key)) judged in
      elim (judge-IsOutdated obj (rejected_on dates obj.key) before tally key refl last m) [
        | inl (outdated, same) ↦ (obj, inl refl, same, outdated)
        | inr later ↦
            let (found, listed, same, outdated) =
              judge_all-IsOutdated objects before key rest later in
            (found, inr listed, same, outdated)
      ]

  delete_all-lem :
      (dry_run : Bool) (r : Result Fault QuarantineTally) (key : String)
      → contains (delete_all dates config dry_run r).deleted key ≡ true
      → (tally : QuarantineTally) × (r ≡ ok tally)
        × (contains (map (λ o. o.key) tally.expired) key ≡ true)
  delete_all-lem dry_run (err fault) key m = absurd (cc)
  delete_all-lem true (ok tally) key m = absurd (cc)
  delete_all-lem false (ok tally) key m = (tally, refl, m)

  -- The sweep of rejected deliveries deletes nothing on a guess: each deleted key is that of a
  -- listed object whose key yields a day of rejection, and that day is before the window of the
  -- feed that the key names, which could be read.
  pub sweep_quarantine_deletes :
      (dry_run : Bool) (objects : List Object) (key : String)
      → contains (sweep_quarantine dates config dry_run objects).deleted key ≡ true
      → (obj : Object) × Listed obj objects × (obj.key ≡ key) × IsOutdated obj
  unfolding sweep_quarantine
  sweep_quarantine_deletes dry_run objects key m =
      let (tally, returned, listed) =
        delete_all-lem dry_run (config.default_years >>= λ years. judge_all dates config objects)
          key m in
      let (_, _, all) =
        first_step config.default_years (λ years. judge_all dates config objects) returned in
      judge_all-IsOutdated objects tally key all listed
