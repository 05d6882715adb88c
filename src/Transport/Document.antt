-- ===== src/Transport/Document.antt =====
-- The documents of reporting_transport/contract.py: a marker's JSON object, `Transport.as_dict` and
-- `serialize_transport`. `json.dumps` and the texts of instants are parameters.
use reporting_platform_local.Common.{
  ℕ, Option, none, some, List, [], ◌∷◌, ◌++◌, map, contains, Dict, String, less, if◌then◌else◌,
  Result, ok, ◌>>=◌, ◌>>◌, refuse_if, string_eq, nat_eq, text_order, replace, pos,
}
use reporting_platform_local.Transport.Paths.{TransportError, contract_error}
use reporting_platform_local.Transport.Parse.{
  Json, integer, text, FileValue, object, not_an_object, TransportFile,
}

-- A member of the marker's document
pub data Member : Type 0 where
  null : Member
  scalar : Json → Member
  array : List FileValue → Member

-- What `json.loads` makes of a text before its hook has seen the members: an object's members in
-- order, a key perhaps more than once, or another value
pub data Document : Type 0 where
  members : List (String × Member) → Document
  not_object : Document

-- Instants, their texts as `isoformat` writes them in UTC, and `fromisoformat`: `none` where it
-- raises, and `some none` for a text with no offset.
pub record Instants : Type 0 where
  pub isoformat : ℕ → String
  pub fromisoformat : String → Option (Option ℕ)

pub record Transport : Type 0 where
  pub transport_contract_version : ℕ
  pub transport_id : String
  pub source : String
  pub legacy_feed_id : String
  pub source_observed_at : ℕ
  pub uploaded_at : ℕ
  pub files : List TransportFile
  pub producer_run_id : Option String
  pub cob_date : Option String
  pub source_system : Option String

-- `_unique_object`, for the keys that have been seen
unfoldable pub unique_object :
    {V : Type 0} → List String → List (String × V) → Result TransportError (Dict String V)
unique_object seen [] = ok []
unique_object seen ((key, value) ∷ pairs) =
    let rest = unique_object (key ∷ seen) pairs in
    refuse_if (contains seen key) contract_error >> (rest >>= λ out. ok ((key, value) ∷ out))

-- The hook on the objects inside a list of files
unfoldable pub unique_files : List FileValue → Result TransportError (Unit {0})
unique_files [] = ok tt
unique_files (not_an_object ∷ values) = unique_files values
unique_files (object pairs ∷ values) = unique_object [] pairs >>= λ _. unique_files values

unfoldable pub unique_members : List (String × Member) → Result TransportError (Unit {0})
unique_members [] = ok tt
unique_members ((key, array values) ∷ pairs) = unique_files values >> unique_members pairs
unique_members ((key, null) ∷ pairs) = unique_members pairs
unique_members ((key, scalar value) ∷ pairs) = unique_members pairs

-- `TransportFile.as_dict`
abbrev pub file_dict : TransportFile → Dict String Json
file_dict f =
    ("role", text f.role)
    ∷ ("original_filename", text f.original_filename)
    ∷ ("object_key", text f.object_key)
    ∷ ("bytes", integer (pos f.bytes))
    ∷ ("sha256", text f.sha256)
    ∷ []

abbrev pub optional_member : String → Option String → Dict String Member
optional_member field none = []
optional_member field (some value) = (field, scalar (text value)) ∷ []

-- A dict's members by their keys, as `sort_keys` writes them
unfoldable pub insert_member : {V : Type 0} → String → V → Dict String V → Dict String V
insert_member k v [] = (k, v) ∷ []
insert_member k v ((j, w) ∷ d) =
    let rest = insert_member k v d in if less j k then (j, w) ∷ rest else (k, v) ∷ ((j, w) ∷ d)

unfoldable pub sort_members : {V : Type 0} → Dict String V → Dict String V
sort_members [] = []
sort_members ((k, v) ∷ d) = insert_member k v (sort_members d)

abbrev pub sorted_file : FileValue → FileValue
sorted_file not_an_object = not_an_object
sorted_file (object pairs) = object (sort_members pairs)

abbrev pub sorted_member : String × Member → String × Member
sorted_member (key, array values) = (key, array (map sorted_file values))
sorted_member (key, null) = (key, null)
sorted_member (key, scalar value) = (key, scalar value)

module _ (instants : Instants) where
  -- `_timestamp`
  unfoldable pub timestamp : ℕ → String
  timestamp value = replace "+00:00" "Z" (instants.isoformat value)

  -- `Transport.as_dict`
  unfoldable pub as_dict : Transport → Dict String Member
  as_dict t =
      ("transport_contract_version", scalar (integer (pos t.transport_contract_version)))
      ∷ ("transport_id", scalar (text t.transport_id))
      ∷ ("source", scalar (text t.source))
      ∷ ("legacy_feed_id", scalar (text t.legacy_feed_id))
      ∷ ("source_observed_at", scalar (text (timestamp t.source_observed_at)))
      ∷ ("uploaded_at", scalar (text (timestamp t.uploaded_at)))
      ∷ ("files", array (map (λ f. object (file_dict f)) t.files))
      ∷ (optional_member "producer_run_id" t.producer_run_id
          ++ (optional_member "cob_date" t.cob_date
              ++ optional_member "source_system" t.source_system))

  -- `serialize_transport`, before its text is encoded
  unfoldable pub serialize_transport :
      {Body : Type 0} → (Dict String Member → Body) → Transport → Body
  serialize_transport dumps t = dumps (sort_members (map sorted_member (as_dict t)))
