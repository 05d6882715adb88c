-- ===== src/Tests/Delivery.antt =====
-- A transport with a control file, and the identity of its delivery.
use Prim.Native.String.{[], ◌∷◌}
use reporting_platform_local.Common.{
  Bool, true, false, none, some, Option, [], ◌∷◌, String, ◌≡◌, refl, lookup, insert, IsDict, ok,
  ◌==◌, if◌then◌else◌, leb, string_eq, nat_eq, option_eq, date_eq, ℕ_discrete, Listed, ◌⊎◌, Date,
  starts_with, after_prefix, drop_chars, lstrip, rstrip, strip, Result, Date-discrete, text_order,
}
use reporting_platform_local.Filenames.Render.{Python, parse_filename}
use reporting_platform_local.Transport.Parse.{TransportFile}
use reporting_platform_local.Transport.Document.{Transport}
use reporting_platform_local.Delivery.Control.{
  Control, Readers, key_value, wanted_of, read_each, nth, index_from, partition, split_lines,
  add_lines, read_key_value, read,
}
use reporting_platform_local.Delivery.Values.{day, number, text, value, all_chars, value_eq}
use reporting_platform_local.Delivery.Identity.{
  DeliveryError, Feed, Collected, claimed, named_dates, named_versions, by_source,
  require_consistent, gather, check_each, check_field, select, ResolvedIdentity,
  resolve_transport_feed,
}
use reporting_platform_local.Delivery.Resolve.{
  check_assertions, assertions_of, decide, read_names, claims_of, read_claims, configured, is_empty,
  with_role, collect, resolve_business_identity,
}
use reporting_platform_local.Delivery.Resolved.{
  IsAgreed, IsVersion, resolve_business_identity-agrees, resolve_business_identity-required,
}
use reporting_platform_local.Delivery.Feeds.{resolve_transport_feed_unique}
use reporting_platform_local.Delivery.Complete.{IsReading, read-IsReading}

abbrev june : Date
june = record { year = 2026; month = 6; day = 30 }

abbrev date_at : String → Option Date
date_at s = if s == "20260630" then some june else none

abbrev python : Python
python = record {
  fullmatch =
      λ pattern name. if name == "trades_20260630.csv" then some ("20260630", none) else none;
  strptime = date_at;
  int = λ s. none;
  compact = λ d. "20260630";
  decimal = λ n. "1";
}

abbrev readers : Readers
readers = record {
  search = λ pattern group content. none;
  rows = λ delimiter quote content. none;
  strptime = date_at;
  is_digit = λ c. leb 0x30 c;
  int = λ s. 2;
  lower = λ s. s;
}

abbrev control : Control
control = record {
  format = key_value "=";
  pattern = none;
  fields = ("cob_date", "DATE") ∷ ("row_count", "ROWS") ∷ [];
}

abbrev feed : Feed
feed = record {
  name = "trades";
  source_identifiers = ("dcm", "41") ∷ [];
  filename_pattern = "trades_(?P<cob_date>\\d{8})\\.csv";
  control = some control;
  delivery_identity = "filename" ∷ "control" ∷ [];
}

abbrev other : Feed
other = record feed { name = "positions"; source_identifiers = ("dcm", "42") ∷ [] }

abbrev file : String → String → TransportFile
file role name = record {
  role = role;
  original_filename = name;
  object_key = name;
  bytes = 2;
  sha256 = "00";
}

abbrev transport : Transport
transport = record {
  transport_contract_version = 2;
  transport_id = "dcm-41-7";
  source = "dcm";
  legacy_feed_id = "41";
  source_observed_at = 1;
  uploaded_at = 2;
  files = file "data" "trades_20260630.csv" ∷ file "control" "trades.ctl" ∷ [];
  producer_run_id = some "7";
  cob_date = none;
  source_system = none;
}

abbrev content : String
content = "DATE = 20260630\r\nROWS=2\n"

abbrev read_text : TransportFile → Result DeliveryError String
read_text f = ok content

abbrev names_control : String → String → String → Bool
names_control pattern data_name control_name = true

abbrev isoformat : Date → String
isoformat d = "2026-06-30"

abbrev resolved : ResolvedIdentity
resolved = record {
  business_date = record {
    value = day june;
    source = "filename";
    objects = "trades_20260630.csv" ∷ [];
  };
  file_version =
      some (record { value = number 1; source = "filename"; objects = "trades_20260630.csv" ∷ [] });
  resolution_order = "filename" ∷ "control" ∷ [];
  producer_assertions =
      ("business_date", text "2026-06-30")
      ∷ ("row_count", number 2)
      ∷ ("producer_run_id", text "7")
      ∷ [];
}

program : Unit {0}
unfolding lookup insert string_eq nat_eq option_eq date_eq value_eq ℕ_discrete Date-discrete
    text_order starts_with after_prefix drop_chars lstrip rstrip strip parse_filename wanted_of
    read_each nth index_from partition split_lines add_lines read_key_value read value all_chars
    claimed named_dates named_versions by_source require_consistent gather check_each check_field
    select resolve_transport_feed check_assertions assertions_of decide read_names claims_of
    read_claims collect resolve_business_identity
program = tt

read_run :
    read readers control content ("cob_date" ∷ "md5" ∷ "row_count" ∷ [])
    ≡ ok (("cob_date", some "20260630") ∷ ("row_count", some "2") ∷ [])
unfolding program
read_run = refl

read-IsReading_example :
    IsDict {K = String} {V = Option String}
      (("cob_date", some "20260630") ∷ ("row_count", some "2") ∷ [])
    × ((field : String)
        → IsReading readers control content
            ("cob_date" ∷ "md5" ∷ "row_count" ∷ [])
            field
            (lookup field (("cob_date", some "20260630") ∷ ("row_count", some "2") ∷ [])))
read-IsReading_example =
    read-IsReading readers control content ("cob_date" ∷ "md5" ∷ "row_count" ∷ [])
      (("cob_date", some "20260630") ∷ ("row_count", some "2") ∷ []) read_run

feed_run : resolve_transport_feed transport (("trades", feed) ∷ ("positions", other) ∷ []) ≡ ok feed
unfolding program
feed_run = refl

resolve_transport_feed_unique_example :
    Listed feed (feed ∷ other ∷ [])
    × (lookup "dcm" feed.source_identifiers ≡ some "41")
    × ((f : Feed)
        → Listed f (feed ∷ other ∷ [])
        → lookup "dcm" f.source_identifiers ≡ some "41"
        → f ≡ feed)
resolve_transport_feed_unique_example =
    resolve_transport_feed_unique transport (("trades", feed) ∷ ("positions", other) ∷ []) feed
      feed_run

identity_run :
    resolve_business_identity python readers isoformat read_text names_control transport feed
    ≡ ok resolved
unfolding program
identity_run = refl

resolve_business_identity-agrees_example :
    (collected : Collected) × (collect python readers isoformat read_text names_control transport
        feed
      ≡ ok collected)
    × (select (by_source collected "business_date") feed.delivery_identity
        ≡ some resolved.business_date)
    × IsAgreed collected "business_date" feed.delivery_identity resolved.business_date.value
    × (select (by_source collected "file_version") feed.delivery_identity ≡ resolved.file_version)
    × IsVersion collected feed.delivery_identity resolved.file_version
resolve_business_identity-agrees_example =
    resolve_business_identity-agrees python readers isoformat read_text names_control transport feed
      resolved identity_run

resolve_business_identity-required_example :
    (is_empty (configured feed.control) ≡ true) ⊎ (is_empty (with_role "control" transport) ≡ false)
resolve_business_identity-required_example =
    resolve_business_identity-required python readers isoformat read_text names_control transport
      feed resolved identity_run
