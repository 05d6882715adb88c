-- ===== src/Tests/Transport.antt =====
-- A marker that declares one data file and its control file.
use Prim.Native.String.{◌++◌}
use reporting_platform_local.Common.{
  has_char, ends_with, Bool, true, none, some, Option, List, [], ◌∷◌, String, ◌≡◌, refl, any,
  lookup, ◌==◌, ok, string_eq, nat_eq, ℕ_discrete, All, IsNodup, pos, strip, Date,
}
use reporting_platform_local.Transport.Paths.{
  complete_key, transport_prefix, validate_cob_date, validate_prefix, validate_segment,
  all_segment_chars, split_path, ends_with_slash,
}
use reporting_platform_local.Transport.Parse.{
  integer, text, FileValue, object, TransportFile, validate_filename, is_hex, parse_object,
  parse_each, refuse_duplicates, parse_files,
}
use reporting_platform_local.Common.{pair_order, nat_order, text_order}
use reporting_platform_local.Transport.LocalFiles.{
  LocalFile, read_files, insert_file, sort_files, ordered_local_files,
}
use reporting_platform_local.Transport.Accepted.{
  IsDeclared, IsSafe, object_keys, filenames, parse_files_accepts,
}

abbrev digest : String
digest = "0123456789abcdef0123456789abcdef0123456789abcdef0123456789abcdef"

abbrev declared : String → String → FileValue
declared role name = object (
    ("role", text role)
    ∷ ("original_filename", text name)
    ∷ ("object_key", text ("received/t1/" ++ name))
    ∷ ("bytes", integer (pos 12))
    ∷ ("sha256", text digest)
    ∷ [])

abbrev file : String → String → TransportFile
file role name = record {
  role = role;
  original_filename = name;
  object_key = "received/t1/" ++ name;
  bytes = 12;
  sha256 = digest;
}

abbrev same_text : String → String
same_text s = s

abbrev date_of : String → Option Date
date_of s = some (record { year = 2026; month = 6; day = 30 })

abbrev text_of_date : Date → String
text_of_date d = "2026-06-30"

abbrev values : List FileValue
values = declared "data" "trades.csv" ∷ declared "control" "trades.ctl" ∷ []

abbrev files : List TransportFile
files = file "data" "trades.csv" ∷ file "control" "trades.ctl" ∷ []

program : Unit {0}
unfolding validate_filename is_hex ends_with parse_object parse_each refuse_duplicates parse_files
    has_char strip lookup string_eq nat_eq ℕ_discrete complete_key transport_prefix
    validate_cob_date validate_prefix validate_segment all_segment_chars split_path ends_with_slash
program = tt

accepted : parse_files same_text "received/t1/" (some values) ≡ ok files
unfolding program
accepted = refl

marker_key :
    complete_key date_of text_of_date "2026-06-30" "murex" "dcm-1-2" none
    ≡ ok "received/cob_date=2026-06-30/source_system=murex/dcm-1-2/_COMPLETE.json"
unfolding program
marker_key = refl

parse_files_accepts_example :
    All (IsDeclared "received/t1/") files
    × All (λ f. IsSafe f.original_filename) files
    × IsNodup (object_keys files)
    × IsNodup (filenames files)
    × (any (λ f. f.role == "data") files ≡ true)
parse_files_accepts_example =
    parse_files_accepts same_text "received/t1/" (some values) files accepted

segment : validate_segment "dcm-1-2" ≡ ok "dcm-1-2"
unfolding program
segment = refl

abbrev local : String → String → LocalFile
local role name = record { role = role; path = name; name = name }

abbrev given : List (String × String)
given = ("control", "a.ctl") ∷ ("data", "b.csv") ∷ ("data", "a.csv") ∷ []

abbrev ordered : List LocalFile
ordered = local "data" "a.csv" ∷ local "data" "b.csv" ∷ local "control" "a.ctl" ∷ []

abbrev is_file : String → Bool
is_file path = true

in_order : ordered_local_files same_text is_file given ≡ ok ordered
unfolding program ordered_local_files read_files sort_files insert_file pair_order text_order
in_order = refl
