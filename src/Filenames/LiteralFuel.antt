-- ===== src/Filenames/LiteralFuel.antt =====
-- The scan of `literal_from_regex` ends before its fuel does.
use Prim.Native.String.{String, [], ◌∷◌}
use reporting_platform_local.Common.{
  ℕ, zero, suc, ◌<◌, nat_eq, drop_chars, chars, date_eq, Dict, lookup, string_eq, arith,
  Option-cases, inl, inr,
}
use reporting_platform_local.Filenames.Patterns.{closing_paren}
use reporting_platform_local.Filenames.Render.{literal_walk, group_name}
use reporting_platform_local.Filenames.Advance.{Ends, emit-Ends, append_text-Ends, group_end}

pub literal_walk-Ends :
    (fuel : ℕ) (groups : Dict String String) (pattern : String)
    → chars pattern < fuel
    → Ends (literal_walk fuel groups pattern)
unfolding literal_walk
literal_walk-Ends zero groups pattern h = absurd (omega (arith, h))
literal_walk-Ends (suc fuel) groups [] h = λ e. cc
literal_walk-Ends (suc fuel) groups (c ∷ []) h = elim (Option-cases (closing_paren 0 (c ∷ []))) [
  | inl e ↦
      ground
        (arith, e, emit-Ends c (literal_walk fuel groups ([])), literal_walk-Ends fuel groups ([]))
  | inr ((inside, after), e) ↦
      let shorter = group_end c ([]) inside after e in
      let later = literal_walk-Ends fuel groups after (omega (arith, h, shorter)) in
      elim (Option-cases (lookup (group_name (drop_chars 4 (c ∷ []))) groups)) [
        | inl missing ↦ ground (
          arith,
          e,
          missing,
          emit-Ends c (literal_walk fuel groups ([])),
          literal_walk-Ends fuel groups ([]),
        )
        | inr (text, found) ↦ ground (
          arith,
          e,
          found,
          append_text-Ends text (literal_walk fuel groups after) later,
          emit-Ends c (literal_walk fuel groups ([])),
          literal_walk-Ends fuel groups ([]),
        )
      ]
]
literal_walk-Ends (suc fuel) groups (c ∷ (d ∷ t)) h =
    elim (Option-cases (closing_paren 0 (c ∷ (d ∷ t)))) [
      | inl e ↦ ground (
        arith,
        e,
        emit-Ends d (literal_walk fuel groups t),
        literal_walk-Ends fuel groups t,
        emit-Ends c (literal_walk fuel groups (d ∷ t)),
        literal_walk-Ends fuel groups (d ∷ t),
      )
      | inr ((inside, after), e) ↦
          let shorter = group_end c (d ∷ t) inside after e in
          let later = literal_walk-Ends fuel groups after (omega (arith, h, shorter)) in
          elim (Option-cases (lookup (group_name (drop_chars 4 (c ∷ (d ∷ t)))) groups)) [
            | inl missing ↦ ground (
              arith,
              e,
              missing,
              emit-Ends d (literal_walk fuel groups t),
              literal_walk-Ends fuel groups t,
              emit-Ends c (literal_walk fuel groups (d ∷ t)),
              literal_walk-Ends fuel groups (d ∷ t),
            )
            | inr (text, found) ↦ ground (
              arith,
              e,
              found,
              append_text-Ends text (literal_walk fuel groups after) later,
              emit-Ends d (literal_walk fuel groups t),
              literal_walk-Ends fuel groups t,
              emit-Ends c (literal_walk fuel groups (d ∷ t)),
              literal_walk-Ends fuel groups (d ∷ t),
            )
          ]
    ]
