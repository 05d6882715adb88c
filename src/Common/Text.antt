-- ===== src/Common/Text.antt =====
-- Python's `str` methods on native strings.
use Prim.Native.Nat.{ℕ}
use Prim.Native.Char.{code}
use Prim.Native.String.{String, [], ◌∷◌, ◌++◌}
use mathlib.Core.List.{List, [], ◌∷◌}
use mathlib.Core.Path.{◌≡◌, refl}
use native.Mathlib.Omega.{arith}
use text.Mathlib.TextEquality.{Char-path}
use reporting_platform_local.Common.Ordered.{Order}
use mathlib.Core.Bool.{Bool, true, false, ◌&&◌, ◌||◌, not}
use mathlib.Core.Option.{Option, none, some}
use reporting_platform_local.Common.Equality.{if◌then◌else◌, leb, ltb, nat_eq, ◌==◌}

-- `str.isspace` of one character
abbrev pub is_space : ℕ → Bool
is_space c =
    leb 9 c && leb c 13
    || leb 28 c && leb c 32
    || c == 0x85
    || c == 0xa0
    || c == 0x1680
    || leb 0x2000 c && leb c 0x200a
    || c == 0x2028
    || c == 0x2029
    || c == 0x202f
    || c == 0x205f
    || c == 0x3000

-- `bool(s)`
abbrev pub truthy : String → Bool
truthy [] = false
truthy (c ∷ s) = true

-- `s or None`
abbrev pub or_none : String → Option String
or_none [] = none
or_none (c ∷ s) = some (c ∷ s)

-- `s or ""`
abbrev pub or_empty : Option String → String
or_empty none = []
or_empty (some s) = s

unfoldable pub lstrip : String → String
lstrip [] = []
lstrip (c ∷ s) = let rest = lstrip s in if is_space (code c) then rest else c ∷ s

unfoldable pub rstrip : String → String
rstrip [] = []
rstrip (c ∷ s) =
    let rest = rstrip s in if is_space (code c) && not (truthy rest) then [] else c ∷ rest

-- `s.strip()`
unfoldable pub strip : String → String
unfolding lstrip rstrip
strip s = rstrip (lstrip s)

-- `s < t`, by code points
abbrev pub text_before : String → String → Bool
text_before [] [] = false
text_before [] (c ∷ t) = true
text_before (c ∷ s) [] = false
text_before (c ∷ s) (d ∷ t) = elim (ltb (code c) (code d)) [
  | true ↦ true
  | false ↦ elim (ltb (code d) (code c)) [ true ↦ false | false ↦ text_before s t ]
]

pub text_before_irrefl : (s : String) → text_before s s ≡ false
text_before_irrefl [] = refl
text_before_irrefl (c ∷ s) = ground (arith, text_before_irrefl s)

pub text_before_trans :
    (s t u : String) → text_before s t ≡ true → text_before t u ≡ true → text_before s u ≡ true
text_before_trans [] [] u h k = cc
text_before_trans [] (d ∷ t) [] h k = cc
text_before_trans [] (d ∷ t) (f ∷ u) h k = refl
text_before_trans (c ∷ s) [] u h k = cc
text_before_trans (c ∷ s) (d ∷ t) [] h k = cc
text_before_trans (c ∷ s) (d ∷ t) (f ∷ u) h k = ground (arith, text_before_trans s t u)

pub text_before_connected :
    (s t : String) → text_before s t ≡ false → text_before t s ≡ false → s ≡ t
text_before_connected [] [] h k = refl
text_before_connected [] (d ∷ t) h k = cc
text_before_connected (c ∷ s) [] h k = cc
text_before_connected (c ∷ s) (d ∷ t) h k = ground (arith, text_before_connected s t, Char-path c d)

instance unfoldable pub text_order : Order String
text_order = record {
  lt = text_before;
  irrefl = text_before_irrefl;
  trans = text_before_trans;
  connected = text_before_connected;
}

-- `sep.join(parts)`
abbrev pub join : String → List String → String
join sep [] = []
join sep (part ∷ []) = part
join sep (part ∷ (next ∷ parts)) = part ++ (sep ++ join sep (next ∷ parts))

-- The parts of an f-string, one after the other
abbrev pub text_of : List String → String
text_of [] = []
text_of (part ∷ parts) = part ++ text_of parts
