-- ===== src/Tests/Filenames.antt =====
-- The names of one feed's files, rendered and taken apart again.
use Prim.Native.Char.{Char, code}
use reporting_platform_local.Common.{
  ◌&&◌, ◌||◌, none, some, [], ◌∷◌, String, ◌≡◌, ◌≢◌, refl, Date, Dict, ok, err, string_eq, date_eq,
  nat_eq, ℕ_discrete, ◌==◌, leb, if◌then◌else◌, lookup, has_char, starts_with, after_prefix,
  has_text, drop_chars, arith, Bool,
}
use reporting_platform_local.Filenames.Patterns.{
  out_of_fuel, no_literal_form, unbalanced, closing_paren, last_dot, is_extension, stem_pattern,
  special,
}
use reporting_platform_local.Filenames.Render.{
  Python, parse_filename, render_inner, render_group, render_walk, render_filename, literal_walk,
  literal_from_regex, group_name,
}
use reporting_platform_local.Filenames.Fuel.{scans_end}
use reporting_platform_local.Filenames.Literals.{escape, IsEscape, literal_from_regex-escape}

abbrev pattern : String
pattern = "trade_(?P<cob_date>\\d{8})(?:_v(?P<version>\\d+))?\\.csv"

abbrev on : Date
on = record { year = 2026; month = 6; day = 22 }

abbrev python : Python
python = record {
  fullmatch = λ p s.
      if s == "trade_20260622.csv"
      then some ("20260622", none)
      else if s == "trade_20260622_v2.csv"
      then some ("20260622", some "2")
      else none;
  strptime = λ s. some on;
  int = λ s. some 2;
  compact = λ d. "20260622";
  decimal = λ n. "2";
}

abbrev no_groups : Dict String String
no_groups = []

abbrev is_word : Char → Bool
is_word c = leb 0x61 (code c) && leb (code c) 0x7a

abbrev escaped : Char → Bool
escaped c = code c == 0x5c || special c

program : Unit {0}
unfolding parse_filename render_inner render_group render_walk render_filename literal_walk
    literal_from_regex group_name closing_paren last_dot is_extension stem_pattern has_char
    starts_with after_prefix has_text drop_chars string_eq date_eq nat_eq ℕ_discrete lookup escape
program = tt

first_file : render_filename python pattern on none ≡ ok "trade_20260622.csv"
unfolding program
first_file = refl

second_file : render_filename python pattern on (some 2) ≡ ok "trade_20260622_v2.csv"
unfolding program
second_file = refl

no_literal : render_filename python "trade.*" on none ≡ err no_literal_form
unfolding program
no_literal = refl

never_closed : render_filename python "trade_(?P<cob_date>" on none ≡ err unbalanced
unfolding program
never_closed = refl

control_file :
    literal_from_regex "(?P<stem>.+)\\.ctl" (("stem", "trade_20260622") ∷ [])
    ≡ ok "trade_20260622.ctl"
unfolding program
control_file = refl

stem_found :
    stem_pattern is_word "trade_(?P<cob_date>\\d{8})\\.csv" ≡ some "trade_(?P<cob_date>\\d{8})"
unfolding program
stem_found = refl

no_stem : stem_pattern is_word "trade\\.(csv|txt)" ≡ none
unfolding program
no_stem = refl

escaped-IsEscape : IsEscape escaped
unfolding has_char
escaped-IsEscape = record {
  backslashes = λ c h. ground (arith, h);
  specials = λ c h. ground (arith, h);
  classes = λ c h. ground (arith, h);
}

scans_end_example :
    (render_filename python pattern on none ≢ err out_of_fuel)
    × (literal_from_regex pattern no_groups ≢ err out_of_fuel)
scans_end_example = scans_end python pattern on none no_groups

literal_from_regex-escape_example :
    literal_from_regex (escape escaped "a.b(1)\\c") no_groups ≡ ok "a.b(1)\\c"
literal_from_regex-escape_example =
    literal_from_regex-escape escaped no_groups "a.b(1)\\c" escaped-IsEscape
