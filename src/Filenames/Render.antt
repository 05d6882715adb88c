-- ===== src/Filenames/Render.antt =====
-- `Feed.parse_filename`, `render_filename` and `literal_from_regex`. Python's `re`, `strptime` and
-- `int` are parameters, as is the text of a date and of a number. The scans advance by more than
-- one character, so they run on fuel: one more than the pattern's length.
use Prim.Native.Char.{Char, code}
use Prim.Native.String.{String, [], ◌∷◌, ◌++◌}
use reporting_platform_local.Common.{
  ℕ, zero, suc, Bool, true, false, not, ◌||◌, Option, none, some, ◌==◌, nat_eq, if◌then◌else◌,
  truthy, has_char, starts_with, has_text, drop_chars, chars, Result, ok, err, ◌>>=◌, ◌>>◌,
  refuse_if, Date, date_eq, string_eq, Dict, lookup,
}
use reporting_platform_local.Filenames.Patterns.{
  FilenameError, ends_in_backslash, no_literal_form, unsupported_in_group, unbalanced, no_value,
  does_not_match, bad_date, index_error, out_of_fuel, backslash, special, emit, closing_paren,
}

-- `re.fullmatch` of a feed's pattern, as the groups `cob_date` and `version`; `strptime` with
-- `%Y%m%d`; `int`; and their inverses.
pub record Python : Type 0 where
  pub fullmatch : String → String → Option (String × Option String)
  pub strptime : String → Option Date
  pub int : String → Option ℕ
  pub compact : Date → String
  pub decimal : ℕ → String

abbrev pub or_first : Option String → Option String
or_first none = none
or_first (some raw) = if truthy raw then some raw else none

-- `version or 1`
abbrev pub or_one : Option ℕ → ℕ
or_one none = 1
or_one (some zero) = 1
or_one (some (suc n)) = suc n

-- What follows a group that opens here, where `_closing_paren` does not raise
abbrev pub in_group :
    Option (String × String)
    → (String → String → Result FilenameError String)
    → Result FilenameError String
in_group none rest = err unbalanced
in_group (some (inside, after)) rest = rest inside after

abbrev pub append_text : String → Result FilenameError String → Result FilenameError String
append_text text rest = rest >>= λ out. ok (text ++ out)

module _ (python : Python) where
  -- `bad` is the ValueError that a text which is no date or number raises.
  unfoldable pub parse_filename : {E : Type 0} → E → String → String → Result E (Option (Date × ℕ))
  parse_filename bad filename_pattern filename = elim (python.fullmatch filename_pattern filename) [
    | none ↦ ok none
    | some (raw_date, raw_version) ↦ elim (python.strptime raw_date) [
      | none ↦ err bad
      | some bd ↦ elim (or_first raw_version) [
        | none ↦ ok (some (bd, 1))
        | some raw ↦ elim (python.int raw) [ none ↦ err bad | some n ↦ ok (some (bd, n)) ]
      ]
    ]
  ]

  unfoldable pub render_inner : ℕ → String → Date → Option ℕ → Result FilenameError String
  render_inner zero inner cob_date version = err out_of_fuel
  render_inner (suc fuel) [] cob_date version = ok []
  render_inner (suc fuel) (c ∷ s) cob_date version = elim (code c == backslash) [
    | true ↦ elim s [ [] ↦ err index_error | d ∷ t ↦ emit d (render_inner fuel t cob_date version) ]
    | false ↦ elim (starts_with "(?P<version>" (c ∷ s)) [
      | true ↦ in_group (closing_paren 0 (c ∷ s)) (λ inside after.
          append_text (python.decimal (or_one version)) (render_inner fuel after cob_date version))
      | false ↦ elim (starts_with "(?P<cob_date>" (c ∷ s)) [
        | true ↦ in_group (closing_paren 0 (c ∷ s)) (λ inside after.
            append_text (python.compact cob_date) (render_inner fuel after cob_date version))
        | false ↦ elim (special c) [
          | true ↦ err unsupported_in_group
          | false ↦ emit c (render_inner fuel s cob_date version)
        ]
      ]
    ]
  ]

  -- `"(?P<version>" in inner and version is not None`
  abbrev pub marks_version : String → Option ℕ → Bool
  marks_version inner none = false
  marks_version inner (some n) = has_text "(?P<version>" inner

  -- The text of a group `(?:…)`
  unfoldable pub render_group : String → Bool → Date → Option ℕ → Result FilenameError String
  render_group inner optional cob_date version =
      if marks_version inner version || not optional
      then render_inner (suc (chars inner)) inner cob_date version
      else ok []

  unfoldable pub render_walk : ℕ → String → Date → Option ℕ → Result FilenameError String
  render_walk zero pattern cob_date version = err out_of_fuel
  render_walk (suc fuel) [] cob_date version = ok []
  render_walk (suc fuel) (c ∷ s) cob_date version = elim (code c == backslash) [
    | true ↦ elim s [
      | [] ↦ err ends_in_backslash
      | d ∷ t ↦ emit d (render_walk fuel t cob_date version)
    ]
    | false ↦ elim (starts_with "(?P<cob_date>" (c ∷ s)) [
      | true ↦ in_group (closing_paren 0 (c ∷ s)) (λ inside after.
          append_text (python.compact cob_date) (render_walk fuel after cob_date version))
      | false ↦ elim (starts_with "(?P<version>" (c ∷ s)) [
        | true ↦ in_group (closing_paren 0 (c ∷ s)) (λ inside after.
            append_text (python.decimal (or_one version)) (render_walk fuel after cob_date version))
        | false ↦ elim (starts_with "(?:" (c ∷ s)) [
          | true ↦ in_group (closing_paren 0 (c ∷ s)) (λ inside after.
              render_group (drop_chars 3 inside) (starts_with "?" after) cob_date version
              >>= λ piece. append_text piece (
                  render_walk fuel (if starts_with "?" after then drop_chars 1 after else after)
                    cob_date version))
          | false ↦ elim (special c) [
            | true ↦ err no_literal_form
            | false ↦ emit c (render_walk fuel s cob_date version)
          ]
        ]
      ]
    ]
  ]

  -- `parsed is None or parsed[0] != cob_date`
  abbrev pub misses : Option (Date × ℕ) → Date → Bool
  misses none cob_date = true
  misses (some (bd, version)) cob_date = not (bd == cob_date)

  unfoldable pub render_filename : String → Date → Option ℕ → Result FilenameError String
  render_filename filename_pattern cob_date version =
      render_walk (suc (chars filename_pattern)) filename_pattern cob_date version >>= λ candidate.
      parse_filename bad_date filename_pattern candidate >>= λ parsed.
      refuse_if (misses parsed cob_date) does_not_match >> ok candidate

-- The name in `(?P<name>`, up to the first ">"
unfoldable pub group_name : String → String
group_name [] = []
group_name (c ∷ s) = let rest = group_name s in if code c == 0x3e then [] else c ∷ rest

-- The escapes that name a class of characters
abbrev pub is_class : Char → Bool
is_class d = has_char (code d) "dwsDWSbAZ"

unfoldable pub literal_walk : ℕ → Dict String String → String → Result FilenameError String
literal_walk zero groups pattern = err out_of_fuel
literal_walk (suc fuel) groups [] = ok []
literal_walk (suc fuel) groups (c ∷ s) = elim (code c == backslash) [
  | true ↦ elim s [
    | [] ↦ err ends_in_backslash
    | d ∷ t ↦ elim (is_class d) [
      | true ↦ err no_literal_form
      | false ↦ emit d (literal_walk fuel groups t)
    ]
  ]
  | false ↦ elim (starts_with "(?P<" (c ∷ s)) [
    | true ↦ in_group (closing_paren 0 (c ∷ s)) (λ inside after.
        elim (lookup (group_name (drop_chars 4 (c ∷ s))) groups) [
          | none ↦ err no_value
          | some text ↦ append_text text (literal_walk fuel groups after)
        ])
    | false ↦ elim (special c) [
      | true ↦ err no_literal_form
      | false ↦ emit c (literal_walk fuel groups s)
    ]
  ]
]

unfoldable pub literal_from_regex : String → Dict String String → Result FilenameError String
literal_from_regex pattern groups = literal_walk (suc (chars pattern)) groups pattern
