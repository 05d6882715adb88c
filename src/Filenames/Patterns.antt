-- ===== src/Filenames/Patterns.antt =====
-- What the scans of a pattern share: its errors, `_closing_paren` and `stem_pattern`.
use Prim.Native.Char.{Char, code}
use Prim.Native.String.{String, [], ◌∷◌}
use reporting_platform_local.Common.{
  ℕ, suc, ◌-◌, Bool, true, false, ◌&&◌, ◌||◌, Option, none, some, ◌==◌, nat_eq, if◌then◌else◌,
  truthy, has_char, Result, ok, ◌>>=◌,
}

-- The cases of FilenameError, and what else a scan may raise; a scan that runs on fuel could also
-- run out of it.
pub data FilenameError : Type 0 where
  ends_in_backslash no_literal_form unsupported_in_group unbalanced no_value : FilenameError
  does_not_match bad_date index_error out_of_fuel : FilenameError

abbrev pub backslash : ℕ
backslash = 0x5c

-- The characters that have no single literal form
abbrev pub special : Char → Bool
special c = has_char (code c) "[]*+?{}()|^$."

-- The text that a scan has put out, before the rest of it
abbrev pub emit : Char → Result FilenameError String → Result FilenameError String
emit c rest = rest >>= λ out. ok (c ∷ out)

-- A text up to a position, and from it on
abbrev pub before_char : Char → Option (String × String) → Option (String × String)
before_char c none = none
before_char c (some (inside, after)) = some (c ∷ inside, after)

-- `_closing_paren`: the text before the parenthesis that closes the group, and the text after it;
-- `none` where it raises.
unfoldable pub closing_paren : ℕ → String → Option (String × String)
closing_paren depth [] = none
closing_paren depth (c ∷ []) = if code c == 0x29 && depth == 1 then some ([], []) else none
closing_paren depth (c ∷ (d ∷ s)) = elim (code c == backslash) [
  | true ↦ before_char c (before_char d (closing_paren depth s))
  | false ↦ elim (code c == 0x28) [
    | true ↦ before_char c (closing_paren (suc depth) (d ∷ s))
    | false ↦ elim (code c == 0x29) [
      | true ↦
          if depth == 1 then some ([], d ∷ s) else before_char c (closing_paren (depth - 1) (d ∷ s))
      | false ↦ before_char c (closing_paren depth (d ∷ s))
    ]
  ]
]

-- An escaped character, before what is found in the rest: a later `\.` goes before this one.
abbrev pub at_escape : Char → Char → String → Option (String × String) → Option (String × String)
at_escape c d s (some (stem, extension)) = some (c ∷ (d ∷ stem), extension)
at_escape c d s none = if code d == 0x2e then some ([], s) else none

-- The text before the last `\.` that is not itself escaped, and the text after it
unfoldable pub last_dot : String → Option (String × String)
last_dot [] = none
last_dot (c ∷ []) = none
last_dot (c ∷ (d ∷ s)) =
    let escaped = at_escape c d s (last_dot s) in
    let plain = before_char c (last_dot (d ∷ s)) in if code c == backslash then escaped else plain

module _ (isalnum : Char → Bool) where
  -- `all(c.isalnum() or c in "_-" for c in extension)`
  unfoldable pub is_extension : String → Bool
  is_extension [] = true
  is_extension (c ∷ s) = (isalnum c || has_char (code c) "_-") && is_extension s

  unfoldable pub stem_pattern : String → Option String
  stem_pattern data_pattern = elim (last_dot data_pattern) [
    | none ↦ none
    | some (stem, extension) ↦
        if truthy extension && is_extension extension then some stem else none
  ]
