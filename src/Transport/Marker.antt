-- ===== src/Transport/Marker.antt =====
-- `parse_transport`, `_parse_v1` and `_parse_v2` of reporting_transport/contract.py. `json.loads` is
-- a parameter, which has read the text of the marker.
use reporting_platform_local.Common.{
  ℕ, Bool, not, ◌&&◌, Option, none, some, List, [], ◌∷◌, all, contains, keys, lookup, Dict, String,
  ◌==◌, if◌then◌else◌, Result, ok, err, ◌>>=◌, ◌>>◌, refuse_if, Date, string_eq, nat_eq, text_order,
  truthy, strip, replace, ℤ, pos,
}
use reporting_platform_local.Transport.Paths.{
  TransportError, contract_error, validate_transport_id, validate_source_system, validate_cob_date,
  transport_prefix, complete_key, transport_prefix_v1, complete_key_v1,
}
use reporting_platform_local.Transport.Parse.{integer, text, FileValue, parse_files}
use reporting_platform_local.Transport.Document.{
  Member, null, scalar, array, Document, members, not_object, Instants, Transport, unique_object,
  unique_members,
}

abbrev pub v1_required : List String
v1_required =
    "transport_contract_version" ∷ "transport_id" ∷ "source" ∷ "legacy_feed_id"
    ∷ "source_observed_at" ∷ "uploaded_at" ∷ "files" ∷ []

abbrev pub v1_fields : List String
v1_fields = "producer_run_id" ∷ v1_required

abbrev pub v2_fields : List String
v2_fields = "cob_date" ∷ "source_system" ∷ v1_fields

-- The text of a member that must be a string; a missing member has been refused before.
abbrev pub text_member : String → Dict String Member → Result TransportError String
text_member field raw = elim (lookup field raw) [
  | some (scalar (text s)) ↦ ok s
  | _ ↦ err contract_error
]

abbrev pub is_trimmed : String → Bool
is_trimmed value = truthy (strip value) && value == strip value

-- `_required_text`
unfoldable pub required_text : String → Dict String Member → Result TransportError String
required_text field raw =
    text_member field raw >>= λ value. refuse_if (not (is_trimmed value)) contract_error >> ok value

-- `_optional_text`
unfoldable pub optional_text : String → Dict String Member → Result TransportError (Option String)
optional_text field raw = elim (lookup field raw) [
  | none ↦ ok none
  | some null ↦ ok none
  | some _ ↦ required_text field raw >>= λ value. ok (some value)
]

-- `raw["files"]`, where it is an array
abbrev pub files_of : Option Member → Option (List FileValue)
files_of (some (array values)) = some values
files_of _ = none

-- `raw.get("transport_contract_version")`, which must be an integer
abbrev pub version_of : Option Member → Result TransportError ℤ
version_of (some (scalar (integer version))) = ok version
version_of _ = err contract_error

module _ (instants : Instants) where
  -- `_parse_timestamp`
  unfoldable pub parse_timestamp : String → Dict String Member → Result TransportError ℕ
  parse_timestamp field raw = text_member field raw >>= λ value.
      refuse_if (not (truthy value)) contract_error
      >> elim (instants.fromisoformat (replace "Z" "+00:00" value)) [
        | none ↦ err contract_error
        | some none ↦ err contract_error
        | some (some parsed) ↦ ok parsed
      ]

  -- `str.lower` of digests, and the dates' texts
  module _ (lower : String → String) (date_of : String → Option Date)
      (text_of_date : Date → String) where
    -- The fields that both versions read, once the marker's key is the expected one
    unfoldable pub parse_evidence :
        ℕ
        → String
        → Option String
        → Option String
        → Result TransportError (Option String)
        → Result TransportError String
        → Dict String Member
        → Result TransportError Transport
    parse_evidence version transport_id cob_date source_system producer expected_prefix raw = do
      source ← required_text "source" raw
      legacy_feed_id ← required_text "legacy_feed_id" raw
      producer_run_id ← producer
      source_observed_at ← parse_timestamp "source_observed_at" raw
      uploaded_at ← parse_timestamp "uploaded_at" raw
      folder ← expected_prefix
      files ← parse_files lower folder (files_of (lookup "files" raw))
      ok (record {
        transport_contract_version = version;
        transport_id = transport_id;
        source = source;
        legacy_feed_id = legacy_feed_id;
        source_observed_at = source_observed_at;
        uploaded_at = uploaded_at;
        files = files;
        producer_run_id = producer_run_id;
        cob_date = cob_date;
        source_system = source_system;
      })

    -- `_parse_v1`
    unfoldable pub parse_v1 :
        Dict String Member → String → Option String → Result TransportError Transport
    parse_v1 raw marker_key prefix = do
      refuse_if (not (all (contains (keys raw)) v1_required)) contract_error
      refuse_if (not (all (contains v1_fields) (keys raw))) contract_error
      transport_id ← text_member "transport_id" raw
      _ ← validate_transport_id transport_id
      expected_marker ← complete_key_v1 transport_id prefix
      refuse_if (not (marker_key == expected_marker)) contract_error
      parse_evidence 1 transport_id none none (optional_text "producer_run_id" raw)
          (transport_prefix_v1 transport_id prefix) raw

    -- `_parse_v2`
    unfoldable pub parse_v2 :
        Dict String Member → String → Option String → Result TransportError Transport
    parse_v2 raw marker_key prefix = do
      refuse_if (not (all (contains (keys raw)) v2_fields)) contract_error
      refuse_if (not (all (contains v2_fields) (keys raw))) contract_error
      transport_id ← text_member "transport_id" raw
      _ ← validate_transport_id transport_id
      date_text ← text_member "cob_date" raw
      cob_date ← validate_cob_date date_of text_of_date date_text
      system_text ← text_member "source_system" raw
      source_system ← validate_source_system system_text
      expected_marker ← complete_key date_of text_of_date cob_date source_system transport_id prefix
      refuse_if (not (marker_key == expected_marker)) contract_error
      parse_evidence 2 transport_id (some cob_date) (some source_system)
          (required_text "producer_run_id" raw >>= λ value. ok (some value))
          (transport_prefix date_of text_of_date cob_date source_system transport_id prefix) raw

    -- The two versions that are supported
    unfoldable pub parse_object_of :
        Dict String Member → String → Option String → Result TransportError Transport
    parse_object_of raw marker_key prefix =
        let first = parse_v1 raw marker_key prefix in
        let second = parse_v2 raw marker_key prefix in
        version_of (lookup "transport_contract_version" raw) >>= λ version. elim version [
          | pos n ↦ if n == 1 then first else if n == 2 then second else err contract_error
          | _ ↦ err contract_error
        ]

    -- `parse_transport`, of the document that `json.loads` reads, or `none` where it raises
    unfoldable pub parse_transport :
        Option Document → String → Option String → Result TransportError Transport
    parse_transport none marker_key prefix = err contract_error
    parse_transport (some not_object) marker_key prefix = err contract_error
    parse_transport (some (members pairs)) marker_key prefix = do
      unique_members pairs
      raw ← unique_object [] pairs
      parse_object_of raw marker_key prefix
