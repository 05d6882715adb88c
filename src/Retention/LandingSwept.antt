-- ===== src/Retention/LandingSwept.antt =====
-- What the sweep of the landing prefix deletes, and how its counts add up.
use Prim.Native.String.{String, [], ◌∷◌}
use reporting_platform_local.Common.{
  ℕ, suc, ◌+◌, Bool, true, none, some, List, [], ◌∷◌, map, length, contains, to_set, less, Listed,
  ok, ◌>>=◌, Date, date_order, string_eq, ◌≡◌, ◌⊎◌, inl, inr, refl, arith, contains-append,
  Result-cases, Bool-cases, first_step,
}
use reporting_platform_local.Filenames.Render.{Python}
use reporting_platform_local.Filenames.Claims.{Matcher}
use reporting_platform_local.Retention.LandingNames.{Feed, base_name, cob_date_of}
use reporting_platform_local.Retention.Landing.{
  Object, Tally, Summary, LandingConfig, add_object, nothing, tally_objects, keep_years, cutoff_of,
  prefix_of, judge_feed, add_entry, start_summary, sweep_feeds, sweep_landing,
}

module _ (python : Python) (re : Matcher) (gates : String → String → String → Bool) where
  -- An object that is dated before a cutoff
  abbrev pub IsDated : Feed → Date → List String → Object → Type 0
  IsDated feed cutoff siblings obj =
      (bd : Date) × (cob_date_of python re gates feed (base_name obj.key) siblings ≡ ok (some bd))
      × (less bd cutoff ≡ true)

  add_object-IsDated :
      (feed : Feed) (cutoff : Date) (siblings : List String) (obj : Object) (tally after : Tally)
      (key : String)
      → add_object python re gates feed cutoff siblings obj tally ≡ ok after
      → contains (map (λ x. x.key) after.expired) key ≡ true
      → (IsDated feed cutoff siblings obj × (obj.key ≡ key))
        ⊎ (contains (map (λ x. x.key) tally.expired) key ≡ true)
  unfolding add_object
  add_object-IsDated feed cutoff siblings obj tally after key h m =
      elim (Result-cases (cob_date_of python re gates feed (base_name obj.key) siblings)) [
        | inr (fault, e) ↦ absurd (ground arith)
        | inl (none, e) ↦ inr (ground arith)
        | inl (some bd, e) ↦ elim (Bool-cases (less bd cutoff)) [
          | inr recent ↦ inr (ground arith)
          | inl old ↦
              let either : (obj.key ≡ key)
                  ⊎ (contains (map (λ x. x.key) tally.expired) key ≡ true) =
                ground arith in
              elim either [ inl same ↦ inl ((bd, e, old), same) | inr later ↦ inr later ]
        ]
      ]

  -- Every object is counted once: as expired, as retained, or as unrecognised.
  add_object_counts :
      (feed : Feed) (cutoff : Date) (siblings : List String) (obj : Object) (tally after : Tally)
      → add_object python re gates feed cutoff siblings obj tally ≡ ok after
      → length after.expired + after.retained + after.unrecognised
        ≡ suc (length tally.expired + tally.retained + tally.unrecognised)
  unfolding add_object
  add_object_counts feed cutoff siblings obj tally after h =
      elim (Result-cases (cob_date_of python re gates feed (base_name obj.key) siblings)) [
        | inr (fault, e) ↦ absurd (ground arith)
        | inl (none, e) ↦ ground arith
        | inl (some bd, e) ↦ ground arith
      ]

  tally_objects_counts :
      (feed : Feed) (cutoff : Date) (siblings : List String) (objects : List Object) (tally : Tally)
      → tally_objects python re gates feed cutoff siblings objects ≡ ok tally
      → length tally.expired + tally.retained + tally.unrecognised ≡ length objects
  unfolding tally_objects
  tally_objects_counts feed cutoff siblings [] tally h = ground arith
  tally_objects_counts feed cutoff siblings (obj ∷ objects) tally h =
      let (_, _, judged) =
        first_step (add_object python re gates feed cutoff siblings obj (nothing python re gates)) _
          h in
      let (before, rest, last) =
        first_step (tally_objects python re gates feed cutoff siblings objects)
          (add_object python re gates feed cutoff siblings obj) judged in
      omega (
        arith,
        add_object_counts feed cutoff siblings obj before tally last,
        tally_objects_counts feed cutoff siblings objects before rest,
      )

  tally_objects-IsDated :
      (feed : Feed) (cutoff : Date) (siblings : List String) (objects : List Object) (tally : Tally)
      (key : String)
      → tally_objects python re gates feed cutoff siblings objects ≡ ok tally
      → contains (map (λ x. x.key) tally.expired) key ≡ true
      → (obj : Object) × Listed obj objects × (obj.key ≡ key) × IsDated feed cutoff siblings obj
  unfolding tally_objects
  tally_objects-IsDated feed cutoff siblings [] tally key h m = absurd (ground arith)
  tally_objects-IsDated feed cutoff siblings (obj ∷ objects) tally key h m =
      let (_, _, judged) =
        first_step (add_object python re gates feed cutoff siblings obj (nothing python re gates)) _
          h in
      let (before, rest, last) =
        first_step (tally_objects python re gates feed cutoff siblings objects)
          (add_object python re gates feed cutoff siblings obj) judged in
      elim (add_object-IsDated feed cutoff siblings obj before tally key last m) [
        | inl (dated, same) ↦ (obj, inl refl, same, dated)
        | inr later ↦
            let (found, listed, same, dated) =
              tally_objects-IsDated feed cutoff siblings objects before key rest later in
            (found, inr listed, same, dated)
      ]

  -- What it takes for an object to be deleted
  abbrev pub IsExpired : LandingConfig → Feed → String → Type 0
  IsExpired config feed key =
      (years : ℕ) × (keep_years python re gates config feed ≡ ok years)
      × ((obj : Object) × Listed obj (config.objects (prefix_of python re gates feed))
          × (obj.key ≡ key)
          × IsDated feed (cutoff_of python re gates config years)
              (to_set
                (map (λ o. base_name o.key) (config.objects (prefix_of python re gates feed))))
              obj)

  deleted-IsExpired :
      (config : LandingConfig) (dry_run : Bool) (feeds : List Feed) (summary : Summary)
      (key : String)
      → contains (sweep_feeds python re gates config dry_run feeds summary).deleted key ≡ true
      → (feed : Feed) × Listed feed feeds × IsExpired config feed key
  unfolding sweep_feeds judge_feed
  deleted-IsExpired config dry_run [] summary key m = absurd (ground arith)
  deleted-IsExpired config dry_run (feed ∷ feeds) summary key m =
      elim (Result-cases (keep_years python re gates config feed)) [
        | inr (fault, e) ↦ absurd (ground arith)
        | inl (years, e) ↦ elim (Result-cases (judge_feed python re gates config feed years)) [
          | inr (fault, j) ↦ absurd (ground arith)
          | inl (tally, j) ↦
              let next = add_entry python re gates config dry_run feed years tally summary in
              let rest = (sweep_feeds python re gates config dry_run feeds next).deleted in
              let either : (contains (map (λ x. x.key) tally.expired) key ≡ true)
                  ⊎ (contains rest key ≡ true) =
                ground (arith, e, j, contains-append (map (λ x. x.key) tally.expired) rest key) in
              elim either [
                | inl here ↦
                    (feed, inl refl, (years, e, tally_objects-IsDated feed _ _ _ tally key j here))
                | inr later ↦
                    let (found, listed, expired) =
                      deleted-IsExpired config dry_run feeds next key later in
                    (found, inr listed, expired)
              ]
        ]
      ]

  -- The sweep of the landing prefix deletes nothing but evidence that it can date and whose window
  -- has passed, on every outcome, also when it raises on the way: each deleted key is that of an
  -- object listed under the prefix of a feed whose own window could be read, and the object is
  -- dated, by its name, its delivery's name or the delivery it gates, before that window began.
  pub sweep_landing_deletes :
      (config : LandingConfig) (dry_run : Bool) (key : String)
      → contains (sweep_landing python re gates config dry_run).deleted key ≡ true
      → (feed : Feed) × Listed feed config.feeds × IsExpired config feed key
  unfolding sweep_landing
  sweep_landing_deletes config dry_run key m =
      elim (Result-cases
        (config.default_years >>= λ years. config.raw_months >>= λ months. ok years)) [
          | inr (fault, e) ↦ absurd (ground (arith, e))
          | inl (years, e) ↦
              deleted-IsExpired config dry_run config.feeds
                (start_summary python re gates config years) key (ground (arith, e))
        ]

  -- The counts of a feed's entry account for every object under its prefix once: as expired, as
  -- retained, or as unrecognised and left alone.
  pub judge_feed_counts :
      (config : LandingConfig) (feed : Feed) (years : ℕ) (tally : Tally)
      → judge_feed python re gates config feed years ≡ ok tally
      → length tally.expired + tally.retained + tally.unrecognised
        ≡ length (config.objects (prefix_of python re gates feed))
  unfolding judge_feed
  judge_feed_counts config feed years tally h = tally_objects_counts feed _ _ _ tally h
