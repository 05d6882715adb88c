-- ===== src/Filenames/Fuel.antt =====
-- The scans of a pattern end: fuel of one more than the pattern's length is enough.
use Prim.Native.String.{String, [], ◌∷◌}
use reporting_platform_local.Common.{
  ℕ, zero, suc, ◌<◌, Bool, Option, nat_eq, if◌then◌else◌, starts_with, drop_chars, chars, ok, err,
  ◌>>=◌, ◌>>◌, refuse_if, date_eq, Date, Dict, string_eq, ◌≢◌, arith, Option-cases, inl, inr,
}
use reporting_platform_local.Filenames.Patterns.{
  out_of_fuel, does_not_match, bad_date, closing_paren,
}
use reporting_platform_local.Filenames.Render.{
  Python, render_inner, render_group, render_walk, render_filename, literal_from_regex, or_one,
  misses, parse_filename,
}
use reporting_platform_local.Filenames.Advance.{
  next-le, Ends, emit-Ends, append_text-Ends, bind-Ends, bind_append-Ends, group_end,
}
use reporting_platform_local.Filenames.LiteralFuel.{literal_walk-Ends}

module _ (python : Python) where
  render_inner-Ends :
      (fuel : ℕ) (inner : String) (cob_date : Date) (version : Option ℕ)
      → chars inner < fuel
      → Ends (render_inner python fuel inner cob_date version)
  unfolding render_inner
  render_inner-Ends zero inner cob_date version h = absurd (omega (arith, h))
  render_inner-Ends (suc fuel) [] cob_date version h = λ e. cc
  render_inner-Ends (suc fuel) (c ∷ []) cob_date version h =
      elim (Option-cases (closing_paren 0 (c ∷ []))) [
        | inl e ↦ ground (
          arith,
          e,
          emit-Ends c (render_inner python fuel ([]) cob_date version),
          render_inner-Ends fuel ([]) cob_date version,
        )
        | inr ((inside, after), e) ↦
            let shorter = group_end c ([]) inside after e in
            let later = render_inner-Ends fuel after cob_date version (omega (arith, h, shorter)) in
            ground (
              arith,
              e,
              append_text-Ends (python.decimal (or_one version))
                  (render_inner python fuel after cob_date version) later,
              append_text-Ends (python.compact cob_date)
                  (render_inner python fuel after cob_date version) later,
              emit-Ends c (render_inner python fuel ([]) cob_date version),
              render_inner-Ends fuel ([]) cob_date version,
            )
      ]
  render_inner-Ends (suc fuel) (c ∷ (d ∷ t)) cob_date version h =
      elim (Option-cases (closing_paren 0 (c ∷ (d ∷ t)))) [
        | inl e ↦ ground (
          arith,
          e,
          emit-Ends d (render_inner python fuel t cob_date version),
          render_inner-Ends fuel t cob_date version,
          emit-Ends c (render_inner python fuel (d ∷ t) cob_date version),
          render_inner-Ends fuel (d ∷ t) cob_date version,
        )
        | inr ((inside, after), e) ↦
            let shorter = group_end c (d ∷ t) inside after e in
            let later = render_inner-Ends fuel after cob_date version (omega (arith, h, shorter)) in
            ground (
              arith,
              e,
              append_text-Ends (python.decimal (or_one version))
                  (render_inner python fuel after cob_date version) later,
              append_text-Ends (python.compact cob_date)
                  (render_inner python fuel after cob_date version) later,
              emit-Ends d (render_inner python fuel t cob_date version),
              render_inner-Ends fuel t cob_date version,
              emit-Ends c (render_inner python fuel (d ∷ t) cob_date version),
              render_inner-Ends fuel (d ∷ t) cob_date version,
            )
      ]

  render_group-Ends :
      (inner : String) (optional : Bool) (cob_date : Date) (version : Option ℕ)
      → Ends (render_group python inner optional cob_date version)
  unfolding render_group
  render_group-Ends inner optional cob_date version =
      ground (arith, render_inner-Ends (suc (chars inner)) inner cob_date version (omega arith))

  render_walk-Ends :
      (fuel : ℕ) (pattern : String) (cob_date : Date) (version : Option ℕ)
      → chars pattern < fuel
      → Ends (render_walk python fuel pattern cob_date version)
  unfolding render_walk
  render_walk-Ends zero pattern cob_date version h = absurd (omega (arith, h))
  render_walk-Ends (suc fuel) [] cob_date version h = λ e. cc
  render_walk-Ends (suc fuel) (c ∷ []) cob_date version h =
      elim (Option-cases (closing_paren 0 (c ∷ []))) [
        | inl e ↦ ground (
          arith,
          e,
          emit-Ends c (render_walk python fuel ([]) cob_date version),
          render_walk-Ends fuel ([]) cob_date version,
        )
        | inr ((inside, after), e) ↦
            let shorter = group_end c ([]) inside after e in
            let next = if starts_with "?" after then drop_chars 1 after else after in
            let later = render_walk-Ends fuel after cob_date version (omega (arith, h, shorter)) in
            let beyond =
              render_walk-Ends fuel next cob_date version
                (omega (arith, h, shorter, next-le after)) in
            ground (
              arith,
              e,
              append_text-Ends (python.decimal (or_one version))
                  (render_walk python fuel after cob_date version) later,
              append_text-Ends (python.compact cob_date)
                  (render_walk python fuel after cob_date version) later,
              bind_append-Ends
                  (render_group python (drop_chars 3 inside) (starts_with "?" after) cob_date
                    version)
                  (render_walk python fuel next cob_date version)
                  (render_group-Ends (drop_chars 3 inside) (starts_with "?" after) cob_date version)
                  beyond,
              emit-Ends c (render_walk python fuel ([]) cob_date version),
              render_walk-Ends fuel ([]) cob_date version,
            )
      ]
  render_walk-Ends (suc fuel) (c ∷ (d ∷ t)) cob_date version h =
      elim (Option-cases (closing_paren 0 (c ∷ (d ∷ t)))) [
        | inl e ↦ ground (
          arith,
          e,
          emit-Ends d (render_walk python fuel t cob_date version),
          render_walk-Ends fuel t cob_date version,
          emit-Ends c (render_walk python fuel (d ∷ t) cob_date version),
          render_walk-Ends fuel (d ∷ t) cob_date version,
        )
        | inr ((inside, after), e) ↦
            let shorter = group_end c (d ∷ t) inside after e in
            let next = if starts_with "?" after then drop_chars 1 after else after in
            let later = render_walk-Ends fuel after cob_date version (omega (arith, h, shorter)) in
            let beyond =
              render_walk-Ends fuel next cob_date version
                (omega (arith, h, shorter, next-le after)) in
            ground (
              arith,
              e,
              append_text-Ends (python.decimal (or_one version))
                  (render_walk python fuel after cob_date version) later,
              append_text-Ends (python.compact cob_date)
                  (render_walk python fuel after cob_date version) later,
              bind_append-Ends
                  (render_group python (drop_chars 3 inside) (starts_with "?" after) cob_date
                    version)
                  (render_walk python fuel next cob_date version)
                  (render_group-Ends (drop_chars 3 inside) (starts_with "?" after) cob_date version)
                  beyond,
              emit-Ends d (render_walk python fuel t cob_date version),
              render_walk-Ends fuel t cob_date version,
              emit-Ends c (render_walk python fuel (d ∷ t) cob_date version),
              render_walk-Ends fuel (d ∷ t) cob_date version,
            )
      ]

module _ (python : Python) where
  parse_filename-Ends :
      (pattern filename : String) (cob_date : Date)
      → Ends (
          parse_filename python bad_date pattern filename >>= λ parsed.
          refuse_if (misses python parsed cob_date) does_not_match >> ok filename)
  unfolding parse_filename
  parse_filename-Ends pattern filename cob_date = ground arith

  -- Every scan of a pattern ends with a name or an error of the program's own: fuel of one more
  -- than the pattern's length is never used up, by a group inside the pattern neither.
  pub scans_end :
      (pattern : String) (cob_date : Date) (version : Option ℕ) (groups : Dict String String)
      → (render_filename python pattern cob_date version ≢ err out_of_fuel)
        × (literal_from_regex pattern groups ≢ err out_of_fuel)
  unfolding render_filename literal_from_regex
  scans_end pattern cob_date version groups = (
    bind-Ends (render_walk python (suc (chars pattern)) pattern cob_date version) _
        (render_walk-Ends python (suc (chars pattern)) pattern cob_date version (omega arith))
        (λ candidate. parse_filename-Ends pattern candidate cob_date),
    literal_walk-Ends (suc (chars pattern)) groups pattern (omega arith),
  )
