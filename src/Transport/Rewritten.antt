-- ===== src/Transport/Rewritten.antt =====
-- What is written of an accepted transport is read back, in each version.
use reporting_platform_local.Common.{
  Bool, true, Option, none, some, all, contains, keys, lookup, Dict, String, ok, ◌>>=◌, Date,
  string_eq, nat_eq, text_order, ◌≡◌, refl, ap, arith,
}
use reporting_platform_local.Transport.Paths.{
  validate_transport_id, validate_source_system, validate_cob_date, transport_prefix, complete_key,
  transport_prefix_v1, complete_key_v1,
}
use reporting_platform_local.Transport.Parse.{text}
use reporting_platform_local.Transport.Document.{
  Member, scalar, Instants, Transport, as_dict, sort_members, insert_member,
}
use reporting_platform_local.Transport.Marker.{
  v1_required, v1_fields, v2_fields, is_trimmed, required_text, optional_text, parse_evidence,
  parse_v1, parse_v2,
}
use reporting_platform_local.Transport.Canonical.{
  IsLower, IsInstants, required_text_again, optional_text-IsTrimmed,
}
use reporting_platform_local.Transport.Reparsed.{IsEvidence, parse_evidence_again}
use reporting_platform_local.Transport.Written.{
  with_version, written, written_v1-IsWritten, written_v2-IsWritten,
}
use reporting_platform_local.Transport.Versions.{IsVersion1}

abbrev is_trimmed_run : Option String → Bool
is_trimmed_run none = true
is_trimmed_run (some run) = is_trimmed run

pub optional_text-IsTrimmedRun :
    (raw : Dict String Member) (run : Option String)
    → optional_text "producer_run_id" raw ≡ ok run
    → is_trimmed_run run ≡ true
optional_text-IsTrimmedRun raw none h = refl
optional_text-IsTrimmedRun raw (some run) h = optional_text-IsTrimmed "producer_run_id" raw run h

module _ (instants : Instants) (lower : String → String) (date_of : String → Option Date)
    (text_of_date : Date → String) where
  parse_v1_again :
      (raw : Dict String Member) (marker_key : String) (prefix : Option String) (t : Transport)
      (id : String)
      → all (contains (keys raw)) v1_required ≡ true
      → all (contains v1_fields) (keys raw) ≡ true
      → lookup "transport_id" raw ≡ some (scalar (text t.transport_id))
      → validate_transport_id t.transport_id ≡ ok id
      → complete_key_v1 t.transport_id prefix ≡ ok marker_key
      → parse_evidence instants lower date_of text_of_date 1 t.transport_id none none
          (optional_text "producer_run_id" raw)
          (transport_prefix_v1 t.transport_id prefix)
          raw
        ≡ ok t
      → parse_v1 instants lower date_of text_of_date raw marker_key prefix ≡ ok t
  unfolding parse_v1
  parse_v1_again raw marker_key prefix t id required known name valid key rest =
      ground (arith, required, known, name, valid, key, rest)

  parse_v2_again :
      (raw : Dict String Member) (marker_key : String) (prefix : Option String) (t : Transport)
      (id cob_date source_system : String)
      → all (contains (keys raw)) v2_fields ≡ true
      → all (contains v2_fields) (keys raw) ≡ true
      → lookup "transport_id" raw ≡ some (scalar (text t.transport_id))
      → lookup "cob_date" raw ≡ some (scalar (text cob_date))
      → lookup "source_system" raw ≡ some (scalar (text source_system))
      → validate_transport_id t.transport_id ≡ ok id
      → validate_cob_date date_of text_of_date cob_date ≡ ok cob_date
      → validate_source_system source_system ≡ ok source_system
      → complete_key date_of text_of_date cob_date source_system t.transport_id prefix
        ≡ ok marker_key
      → parse_evidence instants lower date_of text_of_date 2 t.transport_id
          (some cob_date)
          (some source_system)
          (required_text "producer_run_id" raw >>= λ value. ok (some value))
          (transport_prefix date_of text_of_date cob_date source_system t.transport_id prefix)
          raw
        ≡ ok t
      → parse_v2 instants lower date_of text_of_date raw marker_key prefix ≡ ok t
  unfolding parse_v2
  parse_v2_again raw marker_key prefix t id cob_date source_system required known name date system
        valid valid_date valid_system key rest =
      ground
        (arith, required, known, name, date, system, valid, valid_date, valid_system, key, rest)

  module _ (dates : IsInstants instants) (digests : IsLower lower) where
    -- The marker of version 1 that is written of a transport with or without a producer's run
    pub reparse_v1 :
        (t : Transport) (run : Option String) (marker_key : String) (prefix : Option String)
        → is_trimmed_run run ≡ true
        → IsVersion1 instants lower date_of text_of_date marker_key prefix
            (ok run)
            (with_version 1 run none none t)
        → parse_v1 instants lower date_of text_of_date
            (written instants (with_version 1 run none none t))
            marker_key
            prefix
          ≡ ok (with_version 1 run none none t)
    unfolding sort_members insert_member text_order string_eq as_dict lookup optional_text
    reparse_v1 t none marker_key prefix trimmed ((id, valid), key, evidence) =
        let u = with_version 1 none none none t in
        parse_v1_again (written instants u) marker_key prefix u id refl refl refl valid key (
          parse_evidence_again instants lower date_of text_of_date dates digests
            (written instants u) u (ok none) (ok none) (transport_prefix_v1 t.transport_id prefix)
            (written_v1-IsWritten instants t none) refl evidence)
    reparse_v1 t (some run) marker_key prefix trimmed ((id, valid), key, evidence) =
        let u = with_version 1 (some run) none none t in
        let again = required_text_again "producer_run_id" (written instants u) run refl trimmed in
        parse_v1_again (written instants u) marker_key prefix u id refl refl refl valid key (
          parse_evidence_again instants lower date_of text_of_date dates digests
            (written instants u) u (ok (some run))
            (optional_text "producer_run_id" (written instants u))
            (transport_prefix_v1 t.transport_id prefix) (written_v1-IsWritten instants t (some run))
            (ap (λ r. r >>= λ value. ok (some value)) again) evidence)

    pub reparse_v2 :
        (t : Transport) (run cob_date source_system : String) (marker_key : String)
        (prefix : Option String)
        → is_trimmed run ≡ true
        → (id : String) → validate_transport_id t.transport_id ≡ ok id
        → validate_cob_date date_of text_of_date cob_date ≡ ok cob_date
        → validate_source_system source_system ≡ ok source_system
        → complete_key date_of text_of_date cob_date source_system t.transport_id prefix
          ≡ ok marker_key
        → let u = with_version 2 (some run) (some cob_date) (some source_system) t in
          IsEvidence instants lower date_of text_of_date 2 t.transport_id
            (some cob_date)
            (some source_system)
            (ok (some run))
            (transport_prefix date_of text_of_date cob_date source_system t.transport_id prefix)
            u
          → parse_v2 instants lower date_of text_of_date (written instants u) marker_key prefix
            ≡ ok u
    unfolding sort_members insert_member text_order string_eq as_dict lookup
    reparse_v2 t run cob_date source_system marker_key prefix trimmed id valid date system key
          evidence =
        let u = with_version 2 (some run) (some cob_date) (some source_system) t in
        let again = required_text_again "producer_run_id" (written instants u) run refl trimmed in
        parse_v2_again (written instants u) marker_key prefix u id cob_date source_system refl refl
          refl refl refl valid date system key
          (parse_evidence_again instants lower date_of text_of_date dates digests
            (written instants u) u (ok (some run))
            (required_text "producer_run_id" (written instants u) >>= λ value. ok (some value))
            (transport_prefix date_of text_of_date cob_date source_system t.transport_id prefix)
            (written_v2-IsWritten instants t run cob_date source_system)
            (ap (λ r. r >>= λ value. ok (some value)) again) evidence)
