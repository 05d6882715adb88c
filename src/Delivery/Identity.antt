-- ===== src/Delivery/Identity.antt =====
-- `resolve_transport_feed` and `resolve_business_identity` of reporting_platform/ingest/delivery.py.
-- The text of a control object is a parameter (`read_object` and `control.decode`), and so is the
-- test of a control's name against the pattern and the stem of a data file's name.
use reporting_platform_local.Common.{
  ℕ, Bool, Option, none, some, List, [], ◌∷◌, ◌++◌, filter, length, keys, values, to_set, Dict,
  lookup, String, ◌==◌, if◌then◌else◌, leb, Result, ok, err, ◌>>◌, refuse_if, Date, string_eq,
  nat_eq, option_eq, text_order, sort,
}
use reporting_platform_local.Transport.Document.{Transport}
use reporting_platform_local.Delivery.Control.{Control}
use reporting_platform_local.Delivery.Values.{Value, day, number, value_eq}

-- The exceptions: `FeedResolutionError`, `IdentityResolutionError`, `ControlParseError`, the
-- `ValueError` of a name, and what the reading of an object raises
pub data DeliveryError : Type 0 where
  feed_error identity_error control_error bad_name object_error : DeliveryError

pub record Feed : Type 0 where
  pub name : String
  pub source_identifiers : Dict String String
  pub filename_pattern : String
  pub control : Option Control
  pub delivery_identity : List String

abbrev pub exactly_one : List Feed → Result DeliveryError Feed
exactly_one [] = err feed_error
exactly_one (feed ∷ []) = ok feed
exactly_one (feed ∷ (other ∷ feeds)) = err feed_error

abbrev pub claims_transport : Transport → Feed → Bool
claims_transport transport feed =
    lookup transport.source feed.source_identifiers == some transport.legacy_feed_id

unfoldable pub resolve_transport_feed : Transport → Dict String Feed → Result DeliveryError Feed
resolve_transport_feed transport registry =
    exactly_one (filter (claims_transport transport) (values registry))

-- A value, and the key of the object that says so
abbrev pub Evidence : Type 0
Evidence = Dict Value String

pub record Claim : Type 0 where
  pub field : String
  pub value : Value
  pub object_key : String

-- What the names of the data files say, and what the control files say
pub record Collected : Type 0 where
  pub named : List ((Date × ℕ) × String)
  pub claims : List Claim

abbrev pub target_of : String → String
target_of field =
    if field == "cob_date"
    then "business_date"
    else if field == "version"
    then "file_version"
    else field

-- The evidence of the control files for a field
unfoldable pub claimed : List Claim → String → Evidence
claimed [] field = []
claimed (c ∷ cs) field =
    let rest = claimed cs field in if c.field == field then (c.value, c.object_key) ∷ rest else rest

unfoldable pub named_dates : List ((Date × ℕ) × String) → Evidence
named_dates [] = []
named_dates (((cob, version), key) ∷ ns) = (day cob, key) ∷ named_dates ns

unfoldable pub named_versions : List ((Date × ℕ) × String) → Evidence
named_versions [] = []
named_versions (((cob, version), key) ∷ ns) = (number version, key) ∷ named_versions ns

-- `by_source[source][field]`
unfoldable pub by_source : Collected → String → String → Evidence
by_source collected field source =
    if source == "filename"
    then (if field == "business_date"
        then named_dates collected.named
        else named_versions collected.named)
    else if source == "control"
    then claimed collected.claims field
    else []

-- `_require_consistent`
unfoldable pub require_consistent : List Value → Result DeliveryError (Unit {0})
require_consistent vs = refuse_if (leb 2 (length (to_set vs))) identity_error

unfoldable pub gather : (String → Evidence) → List String → List Value
gather evidence [] = []
gather evidence (source ∷ sources) = keys (evidence source) ++ gather evidence sources

unfoldable pub check_each : (String → Evidence) → List String → Result DeliveryError (Unit {0})
check_each evidence [] = ok tt
check_each evidence (source ∷ sources) =
    require_consistent (keys (evidence source)) >> check_each evidence sources

unfoldable pub check_field : (String → Evidence) → List String → Result DeliveryError (Unit {0})
check_field evidence sources =
    check_each evidence sources >> require_consistent (gather evidence sources)

pub record Selected : Type 0 where
  pub value : Value
  pub source : String
  pub objects : List String

abbrev pub pick : String → Evidence → Option Selected → Option Selected
pick source [] rest = rest
pick source ((v, key) ∷ evidence) rest =
    some (record {
      value = v;
      source = source;
      objects = sort (to_set (values ((v, key) ∷ evidence)));
    })

-- The first source that has evidence
unfoldable pub select : (String → Evidence) → List String → Option Selected
select evidence [] = none
select evidence (source ∷ sources) = pick source (evidence source) (select evidence sources)

pub record ResolvedIdentity : Type 0 where
  pub business_date : Selected
  pub file_version : Option Selected
  pub resolution_order : List String
  pub producer_assertions : Dict String Value
