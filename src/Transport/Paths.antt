-- ===== src/Transport/Paths.antt =====
-- The path rules of reporting_transport/contract.py. A value that is not a string is refused with
-- the error that the empty string has, so the validators take strings. `date.fromisoformat` and
-- `date.isoformat` are parameters.
use Prim.Native.Char.{code}
use Prim.Native.String.{String, [], ◌∷◌}
use reporting_platform_local.Common.{
  has_char, ℕ, Bool, true, false, not, ◌&&◌, ◌||◌, Option, none, some, List, [], ◌∷◌, any, ◌==◌,
  if◌then◌else◌, leb, Result, ok, err, ◌>>=◌, ◌>>◌, refuse_if, Date, string_eq, nat_eq, truthy,
  text_of,
}

-- The errors of the package, by their classes; `storage_error` is also what the client itself raises.
pub data TransportError : Type 0 where
  contract_error evidence_error conflict_error source_mutated storage_error : TransportError

abbrev pub slash : ℕ
slash = 0x2f

abbrev pub backslash : ℕ
backslash = 0x5c

-- `raw.split("/")`
unfoldable pub split_path : String → List String
split_path [] = [] ∷ []
split_path (c ∷ s) =
    let rest = split_path s in
    if code c == slash
    then [] ∷ rest
    else elim rest [ [] ↦ (c ∷ []) ∷ [] | part ∷ parts ↦ (c ∷ part) ∷ parts ]

-- `not part or part in (".", "..")`
abbrev pub is_unsafe : String → Bool
is_unsafe part = not (truthy part) || part == "." || part == ".."

-- `s.startswith("/")` and `s.endswith("/")`, one of which holds exactly when `s != s.strip("/")`
abbrev pub starts_with_slash : String → Bool
starts_with_slash [] = false
starts_with_slash (c ∷ s) = code c == slash

unfoldable pub ends_with_slash : String → Bool
ends_with_slash [] = false
ends_with_slash (c ∷ []) = code c == slash
ends_with_slash (c ∷ (d ∷ s)) = ends_with_slash (d ∷ s)

-- `value if value is not None else DEFAULT_RECEIVED_PREFIX`
abbrev pub or_received : Option String → String
or_received none = "received"
or_received (some value) = value

unfoldable pub validate_prefix : Option String → Result TransportError String
validate_prefix value =
    let raw = or_received value in
    refuse_if (not (truthy raw)) contract_error
    >> refuse_if (starts_with_slash raw || ends_with_slash raw || has_char backslash raw)
        contract_error
    >> refuse_if (any is_unsafe (split_path raw)) contract_error
    >> ok raw

-- `[A-Za-z0-9_.-]`
abbrev pub is_segment_char : ℕ → Bool
is_segment_char c =
    leb 0x41 c && leb c 0x5a
    || leb 0x61 c && leb c 0x7a
    || leb 0x30 c && leb c 0x39
    || c == 0x5f
    || c == 0x2e
    || c == 0x2d

unfoldable pub all_segment_chars : String → Bool
all_segment_chars [] = true
all_segment_chars (c ∷ s) = is_segment_char (code c) && all_segment_chars s

-- `_validate_segment`
unfoldable pub validate_segment : String → Result TransportError String
validate_segment value =
    refuse_if (not (truthy value)) contract_error
    >> refuse_if (value == "." || value == "..") contract_error
    >> refuse_if (not (all_segment_chars value)) contract_error
    >> ok value

abbrev pub validate_transport_id : String → Result TransportError String
validate_transport_id = validate_segment

abbrev pub validate_source_system : String → Result TransportError String
validate_source_system = validate_segment

module _ (fromisoformat : String → Option Date) (isoformat : Date → String) where
  unfoldable pub validate_cob_date : String → Result TransportError String
  validate_cob_date value = elim (fromisoformat value) [
    | none ↦ err contract_error
    | some parsed ↦ refuse_if (not (isoformat parsed == value)) contract_error >> ok value
  ]

  unfoldable pub transport_prefix :
      String → String → String → Option String → Result TransportError String
  transport_prefix cob_date source_system transport_id prefix = do
    _ ← validate_cob_date cob_date
    _ ← validate_source_system source_system
    _ ← validate_transport_id transport_id
    root ← validate_prefix prefix
    ok (
        text_of (
          root ∷ "/cob_date=" ∷ cob_date ∷ "/source_system=" ∷ source_system ∷ "/" ∷ transport_id
          ∷ "/" ∷ []))

  unfoldable pub complete_key :
      String → String → String → Option String → Result TransportError String
  complete_key cob_date source_system transport_id prefix = do
    folder ← transport_prefix cob_date source_system transport_id prefix
    ok (text_of (folder ∷ "_COMPLETE.json" ∷ []))

-- The flat layout of version 1
unfoldable pub transport_prefix_v1 : String → Option String → Result TransportError String
transport_prefix_v1 transport_id prefix = do
  _ ← validate_transport_id transport_id
  root ← validate_prefix prefix
  ok (text_of (root ∷ "/" ∷ transport_id ∷ "/" ∷ []))

unfoldable pub complete_key_v1 : String → Option String → Result TransportError String
complete_key_v1 transport_id prefix = do
  folder ← transport_prefix_v1 transport_id prefix
  ok (text_of (folder ∷ "_COMPLETE.json" ∷ []))
