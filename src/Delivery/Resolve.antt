-- ===== src/Delivery/Resolve.antt =====
-- `resolve_business_identity` of reporting_platform/ingest/delivery.py.
use reporting_platform_local.Common.{
  ℕ, Bool, true, false, not, ◌&&◌, Option, none, some, List, [], ◌∷◌, ◌++◌, any, filter, contains,
  keys, Dict, String, ◌==◌, Result, ok, err, ◌>>=◌, ◌>>◌, refuse_if, Date, string_eq, truthy,
}
use reporting_platform_local.Filenames.Render.{Python, parse_filename}
use reporting_platform_local.Transport.Parse.{TransportFile}
use reporting_platform_local.Transport.Document.{Transport}
use reporting_platform_local.Delivery.Control.{ControlError, Control, Readers, read}
use reporting_platform_local.Delivery.Values.{Value, day, text, value}
use reporting_platform_local.Delivery.Identity.{
  DeliveryError, identity_error, control_error, bad_name, Feed, Evidence, Claim, Collected,
  target_of, claimed, by_source, require_consistent, check_field, Selected, select,
  ResolvedIdentity,
}

abbrev pub with_role : String → Transport → List TransportFile
with_role role transport = filter (λ f. f.role == role) transport.files

abbrev as_error : {A : Type 0} → DeliveryError → Result ControlError A → Result DeliveryError A
as_error fault (ok a) = ok a
as_error fault (err e) = err fault

abbrev pub is_empty : {A : Type 0} → List A → Bool
is_empty [] = true
is_empty (x ∷ xs) = false

abbrev all_fields : List String
all_fields = "cob_date" ∷ "version" ∷ "row_count" ∷ "md5" ∷ []

-- `configured_fields`
abbrev pub configured : Option Control → List String
configured none = []
configured (some control) = filter (λ field. contains (keys control.fields) field) all_fields

-- The fields of `assertions`
abbrev pub asserted : List String
asserted = "business_date" ∷ "file_version" ∷ "row_count" ∷ "md5" ∷ []

unfoldable pub check_assertions : List Claim → List String → Result DeliveryError (Unit {0})
check_assertions claims [] = ok tt
check_assertions claims (field ∷ fields) =
    require_consistent (keys (claimed claims field)) >> check_assertions claims fields

-- `value.isoformat() if isinstance(value, date) else value`
abbrev assertion : (Date → String) → Value → Value
assertion isoformat (day d) = text (isoformat d)
assertion isoformat v = v

abbrev add_assertion : (Date → String) → String → Evidence → Dict String Value → Dict String Value
add_assertion isoformat field [] rest = rest
add_assertion isoformat field ((v, key) ∷ evidence) rest = (field, assertion isoformat v) ∷ rest

unfoldable pub assertions_of :
    (Date → String) → List Claim → List String → Option String → Dict String Value
assertions_of isoformat claims [] none = []
assertions_of isoformat claims [] (some run) = ("producer_run_id", text run) ∷ []
assertions_of isoformat claims (field ∷ fields) run =
    add_assertion isoformat field (claimed claims field) (assertions_of isoformat claims fields run)

abbrev pub require_date : Option Selected → Result DeliveryError Selected
require_date none = err identity_error
require_date (some s) = ok s

-- The two selections, once every source agrees
unfoldable pub decide :
    (Date → String) → Transport → List String → Collected → Result DeliveryError ResolvedIdentity
decide isoformat transport sources collected =
    check_field (by_source collected "business_date") sources
    >> (check_field (by_source collected "file_version") sources
        >> (require_date (select (by_source collected "business_date") sources) >>= λ selected.
            check_assertions collected.claims asserted
            >> ok (record {
              business_date = selected;
              file_version = select (by_source collected "file_version") sources;
              resolution_order = sources;
              producer_assertions =
                  assertions_of isoformat collected.claims asserted transport.producer_run_id;
            })))

module _ (python : Python) (readers : Readers) (isoformat : Date → String)
    (read_text : TransportFile → Result DeliveryError String)
    (names_control : String → String → String → Bool) where
  abbrev add_name :
      Option (Date × ℕ) → String → List ((Date × ℕ) × String) → List ((Date × ℕ) × String)
  add_name none key rest = rest
  add_name (some parsed) key rest = (parsed, key) ∷ rest

  unfoldable pub read_names :
      Feed → List TransportFile → Result DeliveryError (List ((Date × ℕ) × String))
  read_names feed [] = ok []
  read_names feed (f ∷ fs) =
      parse_filename python bad_name feed.filename_pattern f.original_filename >>= λ parsed.
      read_names feed fs >>= λ rest. ok (add_name parsed f.object_key rest)

  -- `_check_control_names`, with the test of one name against one data file
  abbrev check_pattern : Option String → Transport → Result DeliveryError (Unit {0})
  check_pattern none transport = ok tt
  check_pattern (some pattern) transport =
      refuse_if
        (truthy pattern
          && any
              (λ c. not (
                any (λ d. names_control pattern d.original_filename c.original_filename)
                  (with_role "data" transport)))
              (with_role "control" transport))
        identity_error

  unfoldable pub claims_of :
      String → Dict String (Option String) → Result DeliveryError (List Claim)
  claims_of key [] = ok []
  claims_of key ((field, raw) ∷ declared) =
      as_error identity_error (value readers field raw) >>= λ parsed.
      claims_of key declared >>= λ rest.
      ok (record { field = target_of field; value = parsed; object_key = key } ∷ rest)

  unfoldable pub read_claims :
      Control → List String → List TransportFile → Result DeliveryError (List Claim)
  read_claims control fields [] = ok []
  read_claims control fields (f ∷ fs) = read_text f >>= λ content.
      as_error control_error (read readers control content fields) >>= λ declared.
      claims_of f.object_key declared >>= λ here.
      read_claims control fields fs >>= λ rest. ok (here ++ rest)

  abbrev pub read_control :
      Option Control → List String → Transport → Result DeliveryError (List Claim)
  read_control none fields transport = ok []
  read_control (some control) [] transport = ok []
  read_control (some control) (field ∷ fields) transport =
      refuse_if (is_empty (with_role "control" transport)) identity_error
      >> (check_pattern control.pattern transport
          >> read_claims control (field ∷ fields) (with_role "control" transport))

  abbrev pub read_filenames :
      Bool → Feed → Transport → Result DeliveryError (List ((Date × ℕ) × String))
  read_filenames false feed transport = ok []
  read_filenames true feed transport = read_names feed (with_role "data" transport)

  -- All the evidence, whatever the first source says
  unfoldable pub collect : Transport → Feed → Result DeliveryError Collected
  collect transport feed =
      read_filenames (contains feed.delivery_identity "filename") feed transport >>= λ named.
      read_control feed.control (configured feed.control) transport >>= λ claims.
      ok (record { named = named; claims = claims })

  unfoldable pub resolve_business_identity :
      Transport → Feed → Result DeliveryError ResolvedIdentity
  resolve_business_identity transport feed =
      collect transport feed >>= decide isoformat transport feed.delivery_identity
