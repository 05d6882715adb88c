-- ===== src/Tests/Publication.antt =====
-- Two files published to a bucket, and their marker.
use Prim.Native.String.{[], ◌∷◌}
use reporting_platform_local.Common.{
  has_char, ends_with, starts_with, after_prefix, replace_from, Bool, true, false, none, some,
  Option, [], ◌∷◌, String, ◌≡◌, refl, lookup, insert, ok, string_eq, nat_eq, option_eq, text_order,
  pair_order, nat_order, ℕ_discrete, All, strip, Date,
}
use reporting_platform_local.Transport.Paths.{
  complete_key, transport_prefix, validate_cob_date, validate_prefix, validate_segment,
  all_segment_chars, split_path, ends_with_slash,
}
use reporting_platform_local.Transport.Parse.{
  validate_filename, is_hex, parse_object, parse_each, refuse_duplicates, parse_files,
  TransportFile,
}
use reporting_platform_local.Transport.LocalFiles.{
  read_files, insert_file, sort_files, ordered_local_files, require_token,
}
use reporting_platform_local.Transport.Document.{
  Transport, timestamp, as_dict, sort_members, insert_member, serialize_transport, unique_object,
  unique_files, unique_members,
}
use reporting_platform_local.Transport.Marker.{
  required_text, optional_text, parse_timestamp, parse_evidence, parse_v1, parse_v2,
  parse_object_of, parse_transport,
}
use reporting_platform_local.Transport.RoundTrip.{parse_transport-serialize_transport}
use reporting_platform_local.Transport.Uploads.{
  Request, Prepared, PublishResult, raw_of, publish_objects, same_files, insert_by_key, sort_by_key,
}
use reporting_platform_local.Transport.Publisher.{
  require_same, reuse_marker, write_marker, prepare, candidate_of, publish_prepared,
  publish_transport_result,
}
use reporting_platform_local.Transport.Durable.{IsStored}
use reporting_platform_local.Transport.Marked.{IsMarked}
use reporting_platform_local.Transport.Published.{
  publish_transport_result-IsMarked, publish_transport_result-IsStored,
}
use reporting_platform_local.Tests.Bucket.{
  Bucket, digest, storage, view, storage-IsStorage, instants, instants-IsInstants, lower,
  lower-IsLower, loads, dumps, json,
}

abbrev date_of : String → Option Date
date_of s = some (record { year = 2026; month = 6; day = 30 })

abbrev text_of_date : Date → String
text_of_date d = "2026-06-30"

abbrev is_file : String → Bool
is_file path = true

abbrev request : Request
request = record {
  legacy_feed_id = "1";
  producer_run_id = "2";
  cob_date = "2026-06-30";
  source_system = "murex";
  source_observed_at = "110";
  uploaded_at = "1110";
  source = "dcm";
  files = ("control", "a.ctl") ∷ ("data", "a.csv") ∷ [];
  prefix = none;
}

abbrev folder : String
folder = "received/cob_date=2026-06-30/source_system=murex/dcm-1-2/"

abbrev marker_key : String
marker_key = "received/cob_date=2026-06-30/source_system=murex/dcm-1-2/_COMPLETE.json"

abbrev declared : String → String → String → TransportFile
declared role name key = record {
  role = role;
  original_filename = name;
  object_key = key;
  bytes = 12;
  sha256 = digest;
}

abbrev transport : Transport
transport = record {
  transport_contract_version = 2;
  transport_id = "dcm-1-2";
  source = "dcm";
  legacy_feed_id = "1";
  source_observed_at = 2;
  uploaded_at = 3;
  files =
      declared "data" "a.csv" "received/cob_date=2026-06-30/source_system=murex/dcm-1-2/a.csv"
      ∷ declared "control" "a.ctl" "received/cob_date=2026-06-30/source_system=murex/dcm-1-2/a.ctl"
      ∷ [];
  producer_run_id = some "2";
  cob_date = some "2026-06-30";
  source_system = some "murex";
}

abbrev published : PublishResult
published = record { transport = transport; newly_published = true }

program : Unit {0}
unfolding validate_filename is_hex ends_with parse_object parse_each refuse_duplicates parse_files
    has_char strip lookup insert string_eq nat_eq option_eq ℕ_discrete complete_key transport_prefix
    validate_cob_date validate_prefix validate_segment all_segment_chars split_path ends_with_slash
    read_files insert_file sort_files ordered_local_files require_token pair_order text_order
    timestamp as_dict sort_members insert_member serialize_transport unique_object unique_files
    unique_members required_text optional_text parse_timestamp parse_evidence parse_v1 parse_v2
    parse_object_of parse_transport publish_objects require_same same_files insert_by_key
    sort_by_key reuse_marker write_marker prepare candidate_of publish_prepared
    publish_transport_result replace_from starts_with after_prefix
program = tt

abbrev nothing : Bucket
nothing = []

first_run :
    (publish_transport_result storage instants lower date_of text_of_date loads dumps lower is_file
      request nothing).0
    ≡ ok published
unfolding program
first_run = refl

-- A retry, later: the marker that is there is returned.
second_run :
    (publish_transport_result storage instants lower date_of text_of_date loads dumps lower is_file
      (record request { uploaded_at = "11110" })
      (publish_transport_result storage instants lower date_of text_of_date loads dumps lower
        is_file request nothing).1).0
    ≡ ok (record { transport = transport; newly_published = false })
unfolding program
second_run = refl

candidate_run :
    parse_transport instants lower date_of text_of_date
      (loads (raw_of request "dcm-1-2" transport.files))
      marker_key
      none
    ≡ ok transport
unfolding program
candidate_run = refl

parse_transport-serialize_transport_example :
    parse_transport instants lower date_of text_of_date
      (loads (serialize_transport instants dumps transport))
      marker_key
      none
    ≡ ok transport
parse_transport-serialize_transport_example =
    parse_transport-serialize_transport instants lower date_of text_of_date instants-IsInstants
      lower-IsLower loads dumps json (loads (raw_of request "dcm-1-2" transport.files)) marker_key
      none transport candidate_run

publish_transport_result-IsMarked_example :
    (prepared : Prepared) × (prepare storage instants lower date_of text_of_date loads dumps lower
        is_file request
      ≡ ok prepared)
    × IsMarked storage view storage-IsStorage instants lower date_of text_of_date loads dumps
        (publish_transport_result storage instants lower date_of text_of_date loads dumps lower
          is_file request nothing).1
        prepared.marker_key
        none
        transport
publish_transport_result-IsMarked_example =
    publish_transport_result-IsMarked storage view storage-IsStorage instants lower date_of
      text_of_date loads dumps instants-IsInstants lower-IsLower json lower is_file (λ body. refl)
      request nothing published first_run

publish_transport_result-IsStored_example :
    All
      (IsStored storage view storage-IsStorage
        (publish_transport_result storage instants lower date_of text_of_date loads dumps lower
          is_file request nothing).1)
      transport.files
publish_transport_result-IsStored_example =
    publish_transport_result-IsStored storage view storage-IsStorage instants lower date_of
      text_of_date loads dumps instants-IsInstants lower-IsLower json lower is_file (λ body. refl)
      request nothing published first_run refl
