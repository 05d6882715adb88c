-- ===== src/Transport/Parse.antt =====
-- The parsing of one file's declaration and of the list of files in reporting_transport/contract.py:
-- `_validate_filename`, `_parse_file` and `_parse_files`, on JSON values as `json.loads` gives them.
use Prim.Native.Char.{code}
use Prim.Native.String.{String, [], ◌∷◌}
use reporting_platform_local.Common.{
  has_char, ends_with, ℕ, zero, suc, Bool, true, false, not, ◌&&◌, ◌||◌, Option, none, some, List,
  [], ◌∷◌, any, all, contains, keys, lookup, Dict, ◌==◌, leb, Result, ok, err, ◌>>=◌, ◌>>◌,
  refuse_if, string_eq, nat_eq, truthy, text_of, strip, ℤ, pos,
}
use reporting_platform_local.Transport.Paths.{TransportError, contract_error, slash, backslash}

-- A member's value, as the parser tells values apart: `other` is null, a boolean, a float or a
-- nested array or object.
pub data Json : Type 0 where
  integer : ℤ → Json
  text : String → Json
  other : Json

-- An entry of `files`: an object, or not
pub data FileValue : Type 0 where
  object : Dict String Json → FileValue
  not_an_object : FileValue

pub record TransportFile : Type 0 where
  pub role : String
  pub original_filename : String
  pub object_key : String
  pub bytes : ℕ
  pub sha256 : String

abbrev pub file_fields : List String
file_fields = "role" ∷ "original_filename" ∷ "object_key" ∷ "bytes" ∷ "sha256" ∷ []

-- `raw[field]` that must be a string
abbrev pub text_field : String → Dict String Json → Result TransportError String
text_field field raw = elim (lookup field raw) [ some (text s) ↦ ok s | _ ↦ err contract_error ]

-- `type(size) is not int or size < 0`
abbrev pub count_field : String → Dict String Json → Result TransportError ℕ
count_field field raw = elim (lookup field raw) [
  | some (integer (pos n)) ↦ ok n
  | _ ↦ err contract_error
]

unfoldable pub validate_filename : String → Result TransportError (Unit {0})
validate_filename value =
    refuse_if (not (truthy value) || value == "." || value == "..") contract_error
    >> refuse_if
        (not (value == strip value)
          || has_char slash value
          || has_char backslash value
          || has_char 0 value)
        contract_error
    >> refuse_if (value == "_COMPLETE.json") contract_error

abbrev pub is_hex_char : ℕ → Bool
is_hex_char c = leb 0x30 c && leb c 0x39 || leb 0x61 c && leb c 0x66 || leb 0x41 c && leb c 0x46

-- `[0-9a-fA-F]{n}`
unfoldable pub is_hex : ℕ → String → Bool
is_hex zero [] = true
is_hex zero (c ∷ s) = false
is_hex (suc n) [] = false
is_hex (suc n) (c ∷ s) = is_hex_char (code c) && is_hex n s

-- The loop over the keys and the names that have been seen
unfoldable pub refuse_duplicates :
    List String → List String → List TransportFile → Result TransportError (Unit {0})
refuse_duplicates seen_keys seen_names [] = ok tt
refuse_duplicates seen_keys seen_names (file ∷ files) =
    refuse_if (contains seen_keys file.object_key) contract_error
    >> refuse_if (contains seen_names file.original_filename) contract_error
    >> refuse_duplicates (file.object_key ∷ seen_keys) (file.original_filename ∷ seen_names) files

-- `str.lower`, of hexadecimal digits, is the parameter `lower`.
module _ (lower : String → String) where
  unfoldable pub parse_object : String → Dict String Json → Result TransportError TransportFile
  parse_object expected_prefix raw = do
    refuse_if (not (all (contains (keys raw)) file_fields)) contract_error
    refuse_if (not (all (contains file_fields) (keys raw))) contract_error
    role ← text_field "role" raw
    refuse_if (not (role == "data" || role == "control")) contract_error
    filename ← text_field "original_filename" raw
    validate_filename filename
    object_key ← text_field "object_key" raw
    refuse_if (not (object_key == text_of (expected_prefix ∷ filename ∷ []))) contract_error
    refuse_if (ends_with "/_COMPLETE.json" object_key) contract_error
    size ← count_field "bytes" raw
    digest ← text_field "sha256" raw
    refuse_if (not (is_hex 64 digest)) contract_error
    ok (record {
      role = role;
      original_filename = filename;
      object_key = object_key;
      bytes = size;
      sha256 = lower digest;
    })

  abbrev pub parse_file : String → FileValue → Result TransportError TransportFile
  parse_file expected_prefix not_an_object = err contract_error
  parse_file expected_prefix (object raw) = parse_object expected_prefix raw

  unfoldable pub parse_each : String → List FileValue → Result TransportError (List TransportFile)
  parse_each expected_prefix [] = ok []
  parse_each expected_prefix (value ∷ values) = do
    file ← parse_file expected_prefix value
    files ← parse_each expected_prefix values
    ok (file ∷ files)

  -- `files` is the JSON array of the marker; a marker whose `files` is no array is `none`.
  unfoldable pub parse_files :
      String → Option (List FileValue) → Result TransportError (List TransportFile)
  parse_files expected_prefix none = err contract_error
  parse_files expected_prefix (some values) = do
    files ← parse_each expected_prefix values
    refuse_if (not (any (λ f. f.role == "data") files)) contract_error
    refuse_duplicates [] [] files
    ok files
