-- ===== src/Filenames/Advance.antt =====
-- What each scan of a pattern rests on: a group that closes leaves less text, and a result that does
-- not run out of fuel passes through the steps around it.
use Prim.Native.Char.{Char}
use Prim.Native.String.{String, [], ◌∷◌}
use reporting_platform_local.Common.{
  ℕ, suc, ◌-◌, ◌≤◌, Bool, true, false, Option, none, some, nat_eq, if◌then◌else◌, starts_with,
  drop_chars, chars, Result, ok, err, ◌>>=◌, date_eq, string_eq, ◌≡◌, ◌≢◌, refl, ap, arith,
}
use reporting_platform_local.Filenames.Patterns.{
  FilenameError, out_of_fuel, emit, before_char, closing_paren,
}
use reporting_platform_local.Filenames.Render.{append_text}

-- The length of the text after a split
abbrev left : Option (String × String) → ℕ
left none = 0
left (some (inside, after)) = chars after

pub left-before_char : (c : Char) (m : Option (String × String)) → left (before_char c m) ≡ left m
left-before_char c none = refl
left-before_char c (some (inside, after)) = refl

-- A group is closed after it opens.
pub left-closing_paren :
    (depth : ℕ) (c : Char) (s : String) → left (closing_paren depth (c ∷ s)) ≤ chars s
unfolding closing_paren
left-closing_paren depth c [] = ground arith
left-closing_paren depth c (d ∷ []) = ground (
  arith,
  left-before_char c (before_char d (closing_paren depth [])),
  left-before_char d (closing_paren depth []),
  left-before_char c (closing_paren (suc depth) (d ∷ [])),
  left-before_char c (closing_paren (depth - 1) (d ∷ [])),
  left-before_char c (closing_paren depth (d ∷ [])),
  left-closing_paren (suc depth) d [],
  left-closing_paren (depth - 1) d [],
  left-closing_paren depth d [],
)
left-closing_paren depth c (d ∷ (e ∷ s)) = ground (
  arith,
  left-before_char c (before_char d (closing_paren depth (e ∷ s))),
  left-before_char d (closing_paren depth (e ∷ s)),
  left-before_char c (closing_paren (suc depth) (d ∷ (e ∷ s))),
  left-before_char c (closing_paren (depth - 1) (d ∷ (e ∷ s))),
  left-before_char c (closing_paren depth (d ∷ (e ∷ s))),
  left-closing_paren depth e s,
  left-closing_paren (suc depth) d (e ∷ s),
  left-closing_paren (depth - 1) d (e ∷ s),
  left-closing_paren depth d (e ∷ s),
)

pub either-le :
    (b : Bool) (x y : String) (n : ℕ) → chars x ≤ n → chars y ≤ n → chars (if b then x else y) ≤ n
either-le true x y n h k = h
either-le false x y n h k = k

pub drop_chars-le : (s : String) → chars (drop_chars 1 s) ≤ chars s
unfolding drop_chars
drop_chars-le [] = omega arith
drop_chars-le (c ∷ s) = omega arith

pub next-le : (s : String) → chars (if starts_with "?" s then drop_chars 1 s else s) ≤ chars s
next-le s =
    either-le (starts_with "?" s) (drop_chars 1 s) s (chars s) (drop_chars-le s) (omega arith)

-- A scan that does not run out of fuel
abbrev pub Ends : Result FilenameError String → Type 0
Ends r = r ≢ err out_of_fuel

pub emit-Ends : (c : Char) (r : Result FilenameError String) → Ends r → Ends (emit c r)
emit-Ends c (ok out) h = λ e. cc
emit-Ends c (err fault) h = λ e. h (ground (arith, e))

pub append_text-Ends :
    (text : String) (r : Result FilenameError String) → Ends r → Ends (append_text text r)
append_text-Ends text (ok out) h = λ e. cc
append_text-Ends text (err fault) h = λ e. h (ground (arith, e))

pub bind-Ends :
    (r : Result FilenameError String) (k : String → Result FilenameError String)
    → Ends r
    → ((out : String) → Ends (k out))
    → Ends (r >>= k)
bind-Ends (ok out) k h each = each out
bind-Ends (err fault) k h each = h

pub bind_append-Ends :
    (r rest : Result FilenameError String)
    → Ends r
    → Ends rest
    → Ends (r >>= λ piece. append_text piece rest)
bind_append-Ends (ok piece) rest h k = append_text-Ends piece rest k
bind_append-Ends (err fault) rest h k = h

-- A group's end, where it has one, is no further than the text goes.
pub group_end :
    (c : Char) (s inside after : String)
    → closing_paren 0 (c ∷ s) ≡ some (inside, after)
    → chars after ≤ chars s
group_end c s inside after e = rw (ap left e) at (left-closing_paren 0 c s)
