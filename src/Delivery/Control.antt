-- ===== src/Delivery/Control.antt =====
-- reporting_platform/ingest/control.py. `re.search`, `csv.reader` and `strptime` are parameters.
use Prim.Native.Char.{Char, code}
use Prim.Native.String.{[], ◌∷◌}
use reporting_platform_local.Common.{
  ℕ, zero, suc, Bool, false, not, ◌&&◌, ◌||◌, Option, none, some, List, [], ◌∷◌, map, any, filter,
  contains, count, Dict, lookup, insert, keys, String, ◌==◌, if◌then◌else◌, leb, Result, ok, err,
  ◌>>=◌, ◌>>◌, refuse_if, strip, truthy, chars, starts_with, drop_chars, Date, string_eq, nat_eq,
}

-- `ControlParseError`, and the `ValueError` of a value
pub data ControlError : Type 0 where
  parse_error value_error : ControlError

pub data Format : Type 0 where
  regex : Format
  delimited : String → String → Option (List String) → Format
  key_value : String → Format

-- A resolved control block: its format, and what it maps the fields to
pub record Control : Type 0 where
  pub format : Format
  pub pattern : Option String
  pub fields : Dict String String

-- `search pattern group text` is `none` where nothing matches, and the group may take no part;
-- `rows delimiter quote text` is `none` for a `csv.Error`; `strptime` reads `%Y%m%d`.
pub record Readers : Type 0 where
  pub search : String → String → String → Option (Option String)
  pub rows : String → String → String → Option (List (List String))
  pub strptime : String → Option Date
  pub is_digit : ℕ → Bool
  pub int : String → ℕ
  pub lower : String → String

-- `CONTROL_FIELD_GROUPS`
abbrev pub group_of : String → String
group_of field = if field == "row_count" then "rows" else field

abbrev pub add_wanted : String → Option String → List (String × String) → List (String × String)
add_wanted field none rest = rest
add_wanted field (some to) rest = (field, to) ∷ rest

-- The fields that the block maps, with what it maps them to
unfoldable pub wanted_of : Control → List String → List (String × String)
wanted_of control [] = []
wanted_of control (field ∷ fields) =
    add_wanted field (lookup field control.fields) (wanted_of control fields)

abbrev pub require : {A : Type 0} → Option A → Result ControlError A
require none = err parse_error
require (some a) = ok a

abbrev pub require_text : Option String → Result ControlError String
require_text none = err parse_error
require_text (some s) = refuse_if (not (truthy s)) parse_error >> ok s

-- The loop of each reader: one value for each field in turn, or the first refusal
unfoldable pub read_each :
    {V : Type 0}
    → (String × String → Result ControlError V)
    → List (String × String)
    → Dict String V
    → Result ControlError (Dict String V)
read_each read_one [] out = ok out
read_each read_one (w ∷ ws) out = read_one w >>= λ v. read_each read_one ws (insert w.0 v out)

abbrev pub blank : String → Bool
blank s = not (truthy (strip s))

-- The item at a place, if there is one
unfoldable pub nth : {A : Type 0} → ℕ → List A → Option A
nth n [] = none
nth zero (x ∷ xs) = some x
nth (suc n) (x ∷ xs) = nth n xs

-- `{name: i for i, name in enumerate(names)}`, from a place on
unfoldable pub index_from : ℕ → List String → Dict String ℕ → Dict String ℕ
index_from i [] index = index
index_from i (name ∷ names) index = index_from (suc i) names (insert name i index)

-- A text up to a separator, which is not empty, and after it
unfoldable pub partition : String → String → Option (String × String)
partition sep [] = none
partition sep (c ∷ s) =
    let rest = partition sep s in
    if starts_with sep (c ∷ s)
    then some ([], drop_chars (chars sep) (c ∷ s))
    else elim rest [ none ↦ none | some (key, value) ↦ some (c ∷ key, value) ]

-- The line boundaries of `str.splitlines`
abbrev is_line_end : ℕ → Bool
is_line_end c =
    leb 0x0a c && leb c 0x0d || leb 0x1c c && leb c 0x1e || c == 0x85 || c == 0x2028 || c == 0x2029

abbrev add_char : Char → List String → List String
add_char c [] = (c ∷ []) ∷ []
add_char c (line ∷ lines) = (c ∷ line) ∷ lines

-- `after_cr` says that a carriage return has just ended a line, which a line feed does not do again.
unfoldable pub split_lines : Bool → String → List String
split_lines after_cr [] = []
split_lines after_cr (c ∷ s) =
    let rest = split_lines (code c == 0x0d) s in
    if is_line_end (code c)
    then (if after_cr && code c == 0x0a then rest else [] ∷ rest)
    else add_char c rest

module _ (readers : Readers) where
  -- `_read_regex`
  abbrev pub read_regex_one : String → String × String → Result ControlError (Option String)
  read_regex_one text (field, pattern) = require (readers.search pattern (group_of field) text)

  unfoldable pub read_regex :
      String → List (String × String) → Result ControlError (Dict String (Option String))
  read_regex text wanted = read_each (read_regex_one text) wanted []

  abbrev pub no_duplicates : List String → Result ControlError (Unit {0})
  no_duplicates names =
      refuse_if (any (λ name. leb 2 (count (λ other. other == name) names)) names) parse_error

  -- The names of the columns, and the rows under them
  abbrev pub header_of :
      Option (List String)
      → List (List String)
      → Result ControlError (List String × List (List String))
  header_of (some names) rows = ok (names, rows)
  header_of none [] = err parse_error
  header_of none (header ∷ rows) =
      let names = map strip header in no_duplicates names >> ok (names, rows)

  abbrev pub only_row : List (List String) → Result ControlError (List String)
  only_row [] = err parse_error
  only_row (row ∷ []) = ok row
  only_row (row ∷ (other ∷ rows)) = err parse_error

  abbrev pub read_column :
      Dict String ℕ → List String → String × String → Result ControlError (Option String)
  read_column index values (field, column) = require (lookup column index) >>= λ position.
      require (nth position values) >>= λ cell.
      require_text (some (strip cell)) >>= λ value. ok (some value)

  -- `_read_delimited`
  unfoldable pub read_delimited :
      String
      → String
      → Option (List String)
      → String
      → List (String × String)
      → Result ControlError (Dict String (Option String))
  read_delimited delimiter quote columns text wanted =
      require (readers.rows delimiter quote text) >>= λ all_rows.
      header_of columns (filter (λ row. any (λ cell. not (blank cell)) row) all_rows)
      >>= λ (names, rows). only_row rows >>= λ values.
          read_each (read_column (index_from 0 names []) values) wanted []

  -- One line of a file of keys and values, after the lines before it
  abbrev pub add_pair :
      Option (String × String) → Dict String String → Result ControlError (Dict String String)
  add_pair none values = err parse_error
  add_pair (some (raw_key, raw_value)) values =
      let key = strip raw_key in
      refuse_if (not (truthy key) || contains (keys values) key) parse_error
      >> ok (insert key (strip raw_value) values)

  unfoldable pub add_lines :
      String → List String → Dict String String → Result ControlError (Dict String String)
  add_lines separator [] values = ok values
  add_lines separator (line ∷ lines) values =
      (if blank line then ok values else add_pair (partition separator line) values) >>= λ more.
      add_lines separator lines more

  abbrev pub read_key : Dict String String → String × String → Result ControlError (Option String)
  read_key values (field, key) = require_text (lookup key values) >>= λ value. ok (some value)

  -- `_read_key_value`
  unfoldable pub read_key_value :
      String → String → List (String × String) → Result ControlError (Dict String (Option String))
  read_key_value separator text wanted =
      add_lines separator (split_lines false text) [] >>= λ values.
      read_each (read_key values) wanted []

  abbrev pub read_format :
      Format → String → List (String × String) → Result ControlError (Dict String (Option String))
  read_format regex text wanted = read_regex text wanted
  read_format (delimited delimiter quote columns) text wanted =
      read_delimited delimiter quote columns text wanted
  read_format (key_value separator) text wanted = read_key_value separator text wanted

  abbrev pub read_wanted :
      Control → String → List (String × String) → Result ControlError (Dict String (Option String))
  read_wanted control text [] = ok []
  read_wanted control text (w ∷ ws) = read_format control.format text (w ∷ ws)

  -- `read`
  unfoldable pub read :
      Control → String → List String → Result ControlError (Dict String (Option String))
  read control text fields = read_wanted control text (wanted_of control fields)
