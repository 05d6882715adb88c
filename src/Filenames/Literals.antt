-- ===== src/Filenames/Literals.antt =====
-- Escaping a text and building the literal again.
use Prim.Native.Char.{Char, code, char}
use Prim.Native.String.{String, [], ◌∷◌}
use reporting_platform_local.Common.{
  ℕ, zero, suc, ◌<◌, Bool, true, false, ◌==◌, nat_eq, ℕ_discrete, if◌then◌else◌, has_char,
  starts_with, chars, after_prefix, Dict, ok, ◌≡◌, refl, arith, Bool-cases, inl, inr,
}
use reporting_platform_local.Filenames.Patterns.{backslash, special}
use reporting_platform_local.Filenames.Render.{literal_walk, literal_from_regex, is_class}

-- A special character is no start of a group that stands for itself.
plain_start : (c : Char) (s : String) → special c ≡ false → starts_with "(?P<" (c ∷ s) ≡ false
unfolding starts_with after_prefix has_char
plain_start c s h = ground arith

-- A text with a backslash before each of some characters, as `re.escape` writes it
unfoldable pub escape : (Char → Bool) → String → String
escape escaped [] = []
escape escaped (c ∷ s) =
    let rest = escape escaped s in if escaped c then char 0x5c tt ∷ (c ∷ rest) else c ∷ rest

-- The characters that are escaped are the backslash and the special ones, and no letter that would
-- name a class.
pub record IsEscape (escaped : Char → Bool) : Type 0 where
  pub backslashes : (c : Char) → code c == backslash ≡ true → escaped c ≡ true
  pub specials : (c : Char) → special c ≡ true → escaped c ≡ true
  pub classes : (c : Char) → is_class c ≡ true → escaped c ≡ false

empty_walk : (groups : Dict String String) (fuel : ℕ) → literal_walk (suc fuel) groups [] ≡ ok []
unfolding literal_walk
empty_walk groups fuel = refl

-- The two kinds of step, over the rest of the text
escaped_step :
    (groups : Dict String String) (c : Char) (rest out : String) (fuel : ℕ)
    → is_class c ≡ false
    → literal_walk fuel groups rest ≡ ok out
    → literal_walk (suc fuel) groups (char 0x5c tt ∷ (c ∷ rest)) ≡ ok (c ∷ out)
unfolding literal_walk nat_eq ℕ_discrete
escaped_step groups c rest out fuel plain h = ground (arith, plain, h)

literal_step :
    (groups : Dict String String) (c : Char) (rest out : String) (fuel : ℕ)
    → code c == backslash ≡ false
    → special c ≡ false
    → literal_walk fuel groups rest ≡ ok out
    → literal_walk (suc fuel) groups (c ∷ rest) ≡ ok (c ∷ out)
unfolding literal_walk
literal_step groups c rest out fuel no_escape plain h =
    ground (arith, no_escape, plain, h, plain_start c rest plain)

literal_walk-escape :
    (escaped : Char → Bool) (groups : Dict String String) (s : String) (fuel : ℕ)
    → IsEscape escaped
    → chars (escape escaped s) < fuel
    → literal_walk fuel groups (escape escaped s) ≡ ok s
unfolding escape
literal_walk-escape escaped groups s zero h k = absurd (omega (arith, k))
literal_walk-escape escaped groups [] (suc fuel) h k = empty_walk groups fuel
literal_walk-escape escaped groups (c ∷ s) (suc fuel) h k = elim (Bool-cases (escaped c)) [
  | inl e ↦
      let shorter : chars (escape escaped s) < fuel = ground (arith, e) in
      let plain : is_class c ≡ false = ground (arith, e, h.classes c) in
      rw e (
        escaped_step groups c (escape escaped s) s fuel plain
          (literal_walk-escape escaped groups s fuel h shorter))
  | inr e ↦
      let shorter : chars (escape escaped s) < fuel = ground (arith, e) in
      rw e (
        literal_step groups c (escape escaped s) s fuel (ground (arith, e, h.backslashes c))
          (ground (arith, e, h.specials c)) (literal_walk-escape escaped groups s fuel h shorter))
]

-- Building the literal of an escaped text gives the text back: for every way of escaping that puts
-- a backslash before each backslash and special character, and before no letter that would name a
-- class of characters.
pub literal_from_regex-escape :
    (escaped : Char → Bool) (groups : Dict String String) (s : String)
    → IsEscape escaped
    → literal_from_regex (escape escaped s) groups ≡ ok s
unfolding literal_from_regex
literal_from_regex-escape escaped groups s h =
    literal_walk-escape escaped groups s (suc (chars (escape escaped s))) h (omega arith)
