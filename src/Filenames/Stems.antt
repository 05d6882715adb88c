-- ===== src/Filenames/Stems.antt =====
-- What `stem_pattern` takes off a pattern.
use Prim.Native.Char.{Char, code, char}
use Prim.Native.String.{String, [], ◌∷◌}
use text.Mathlib.TextEquality.{Char-path}
use reporting_platform_local.Common.{
  Bool, true, false, Option, none, some, ◌==◌, nat_eq, string_eq, if◌then◌else◌, truthy, ◌≡◌, refl,
  sym, subst, ap, arith, Option-cases, inl, inr,
}
use reporting_platform_local.Filenames.Patterns.{
  backslash, before_char, at_escape, last_dot, is_extension, stem_pattern,
}

-- The pattern that a stem and an extension make again
abbrev pub with_extension : String → String → String
with_extension [] extension = char 0x5c tt ∷ (char 0x2e tt ∷ extension)
with_extension (c ∷ stem) extension = c ∷ with_extension stem extension

abbrev Rejoined : Option (String × String) → String → Type 0
Rejoined none s = Unit
Rejoined (some (stem, extension)) s = with_extension stem extension ≡ s

Rejoined-before_char :
    (c : Char) (m : Option (String × String)) (s : String)
    → Rejoined m s
    → Rejoined (before_char c m) (c ∷ s)
Rejoined-before_char c none s h = tt
Rejoined-before_char c (some (stem, extension)) s h = ap (λ t. c ∷ t) h

char_of_code : (c d : Char) → code c == code d ≡ true → c ≡ d
char_of_code c d h = Char-path c d (ground arith)

dot_here :
    (c d : Char) (s : String)
    → code c == backslash ≡ true
    → code d == 0x2e ≡ true
    → with_extension [] s ≡ c ∷ (d ∷ s)
dot_here c d s h k =
    let p = char_of_code c (char 0x5c tt) h in
    let q = char_of_code d (char 0x2e tt) k in λ i. sym p i ∷ (sym q i ∷ s)

either-Rejoined :
    (b : Bool) (x y : Option (String × String)) (s : String)
    → (b ≡ true → Rejoined x s)
    → (b ≡ false → Rejoined y s)
    → Rejoined (if b then x else y) s
either-Rejoined true x y s h k = h refl
either-Rejoined false x y s h k = k refl

Rejoined-at_escape :
    (c d : Char) (s : String) (m : Option (String × String))
    → code c == backslash ≡ true
    → Rejoined m s
    → Rejoined (at_escape c d s m) (c ∷ (d ∷ s))
Rejoined-at_escape c d s (some (stem, extension)) escape h = ap (λ t. c ∷ (d ∷ t)) h
Rejoined-at_escape c d s none escape h =
    either-Rejoined (code d == 0x2e) _ _ (c ∷ (d ∷ s)) (λ dot. dot_here c d s escape dot)
      (λ other. tt)

last_dot-Rejoined : (s : String) → Rejoined (last_dot s) s
unfolding last_dot
last_dot-Rejoined [] = tt
last_dot-Rejoined (c ∷ []) = tt
last_dot-Rejoined (c ∷ (d ∷ s)) =
    let rest = last_dot-Rejoined s in
    let further = last_dot-Rejoined (d ∷ s) in
    either-Rejoined (code c == backslash) (at_escape c d s (last_dot s))
      (before_char c (last_dot (d ∷ s))) (c ∷ (d ∷ s))
      (λ escape. Rejoined-at_escape c d s (last_dot s) escape rest)
      (λ plain. Rejoined-before_char c (last_dot (d ∷ s)) (d ∷ s) further)

module _ (isalnum : Char → Bool) where
  -- A stem that is taken off a data pattern is the pattern up to a literal `\.`, and what follows
  -- the `\.` is an extension: not empty, and of letters, digits, `_` and `-` alone.
  pub stem_pattern-with_extension :
      (data_pattern stem : String)
      → stem_pattern isalnum data_pattern ≡ some stem
      → (extension : String) × (with_extension stem extension ≡ data_pattern)
        × (truthy extension ≡ true)
        × (is_extension isalnum extension ≡ true)
  unfolding stem_pattern
  stem_pattern-with_extension data_pattern stem h = elim (Option-cases (last_dot data_pattern)) [
    | inl e ↦ absurd (ground arith)
    | inr ((found, extension), e) ↦
        let same : found ≡ stem = ground arith in
        (
          extension,
          subst (λ s. with_extension s extension ≡ data_pattern) same
              (subst (λ m. Rejoined m data_pattern) e (last_dot-Rejoined data_pattern)),
          ground arith,
          ground arith,
        )
  ]
