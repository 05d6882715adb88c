-- ===== src/Common/Substrings.antt =====
-- Python's `startswith`, `endswith`, `in` and slices on native strings.
use Prim.Native.Nat.{ℕ, zero, suc, ◌-◌}
use Prim.Native.Char.{code}
use Prim.Native.String.{String, [], ◌∷◌, ◌++◌}
use mathlib.Core.Bool.{Bool, true, false, ◌||◌}
use mathlib.Core.Option.{Option, none, some}
use reporting_platform_local.Common.Equality.{if◌then◌else◌, nat_eq, string_eq, ◌==◌}

-- `chr(c) in s`
unfoldable pub has_char : ℕ → String → Bool
has_char c [] = false
has_char c (d ∷ s) = code d == c || has_char c s

-- The name after a prefix, where it has the prefix
unfoldable pub after_prefix : String → String → Option String
after_prefix [] s = some s
after_prefix (p ∷ ps) [] = none
after_prefix (p ∷ ps) (c ∷ s) =
    let rest = after_prefix ps s in if code p == code c then rest else none

-- `s.endswith(suffix)`
unfoldable pub ends_with : String → String → Bool
ends_with suffix [] = [] == suffix
ends_with suffix (c ∷ s) = (c ∷ s) == suffix || ends_with suffix s

-- `len(s)`
abbrev pub chars : String → ℕ
chars [] = 0
chars (c ∷ s) = suc (chars s)

-- `s.startswith(prefix)`
unfoldable pub starts_with : String → String → Bool
unfolding after_prefix
starts_with prefix s = elim (after_prefix prefix s) [ none ↦ false | some rest ↦ true ]

-- `part in s`
unfoldable pub has_text : String → String → Bool
unfolding starts_with
has_text part [] = starts_with part []
has_text part (c ∷ s) = starts_with part (c ∷ s) || has_text part s

-- `s[n:]`
unfoldable pub drop_chars : ℕ → String → String
drop_chars zero s = s
drop_chars (suc n) [] = []
drop_chars (suc n) (c ∷ s) = drop_chars n s

-- `s.replace(old, new)` for an `old` that is not empty; `skip` characters of one are still to pass.
unfoldable pub replace_from : String → String → ℕ → String → String
replace_from old new skip [] = []
replace_from old new (suc skip) (c ∷ s) = replace_from old new skip s
replace_from old new zero (c ∷ s) = elim (starts_with old (c ∷ s)) [
  | true ↦ new ++ replace_from old new (chars old - 1) s
  | false ↦ c ∷ replace_from old new zero s
]

abbrev pub replace : String → String → String → String
replace old new s = replace_from old new zero s
