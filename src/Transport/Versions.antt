-- ===== src/Transport/Versions.antt =====
-- What a marker of each version has been accepted for.
use reporting_platform_local.Common.{
  not, Option, none, some, all, contains, keys, Dict, String, ◌==◌, Result, ok, ◌>>=◌, refuse_if,
  Date, string_eq, nat_eq, text_order, ◌≡◌, sym, ◌∙◌, ap, subst, arith, first_step,
}
use reporting_platform_local.Transport.Paths.{
  TransportError, contract_error, validate_transport_id, validate_segment, validate_source_system,
  validate_cob_date, transport_prefix, complete_key, transport_prefix_v1, complete_key_v1,
}
use reporting_platform_local.Transport.Document.{Member, Instants, Transport}
use reporting_platform_local.Transport.Marker.{
  v1_required, v1_fields, v2_fields, text_member, required_text, optional_text, parse_v1, parse_v2,
}
use reporting_platform_local.Transport.Reparsed.{IsEvidence, parse_evidence-IsEvidence}

validate_cob_date-same :
    (date_of : String → Option Date) (text_of_date : Date → String) (s t : String)
    → validate_cob_date date_of text_of_date s ≡ ok t
    → s ≡ t
unfolding validate_cob_date
validate_cob_date-same date_of text_of_date s t h = ground (arith, h)

validate_source_system-same : (s t : String) → validate_source_system s ≡ ok t → s ≡ t
unfolding validate_segment
validate_source_system-same s t h = ground (arith, h)

module _ (instants : Instants) (lower : String → String) (date_of : String → Option Date)
    (text_of_date : Date → String) where
  -- What a marker of version 1 has been accepted for
  abbrev pub IsVersion1 :
      String → Option String → Result TransportError (Option String) → Transport → Type 0
  IsVersion1 marker_key prefix producer t =
      ((id : String) × (validate_transport_id t.transport_id ≡ ok id))
      × (complete_key_v1 t.transport_id prefix ≡ ok marker_key)
      × IsEvidence instants lower date_of text_of_date 1 t.transport_id none none producer
          (transport_prefix_v1 t.transport_id prefix) t

  pub parse_v1-IsVersion1 :
      (raw : Dict String Member) (marker_key : String) (prefix : Option String) (t : Transport)
      → parse_v1 instants lower date_of text_of_date raw marker_key prefix ≡ ok t
      → IsVersion1 marker_key prefix (optional_text "producer_run_id" raw) t
  unfolding parse_v1
  parse_v1-IsVersion1 raw marker_key prefix t h =
      let (_, _, h) =
        first_step (refuse_if (not (all (contains (keys raw)) v1_required)) contract_error) _ h in
      let (_, _, h) =
        first_step (refuse_if (not (all (contains v1_fields) (keys raw))) contract_error) _ h in
      let (id, _, h) = first_step (text_member "transport_id" raw) _ h in
      let (valid, is_valid, h) = first_step (validate_transport_id id) _ h in
      let (expected, is_expected, h) = first_step (complete_key_v1 id prefix) _ h in
      let (_, same_key, h) =
        first_step (refuse_if (not (marker_key == expected)) contract_error) _ h in
      let read =
        parse_evidence-IsEvidence instants lower date_of text_of_date 1 id none none
          (optional_text "producer_run_id" raw) (transport_prefix_v1 id prefix) raw t h in
      let same : id ≡ t.transport_id = sym read.1 in
      let key : expected ≡ marker_key = ground (arith, same_key) in
      (
        (valid, subst (λ s. validate_transport_id s ≡ ok valid) same is_valid),
        subst (λ s. complete_key_v1 s prefix ≡ ok marker_key) same (is_expected ∙ ap ok key),
        subst
            (λ s.
              IsEvidence instants lower date_of text_of_date 1 s none none
                (optional_text "producer_run_id" raw) (transport_prefix_v1 s prefix) t)
            same read,
      )

  abbrev pub IsVersion2 :
      String → Option String → Result TransportError (Option String) → Transport → Type 0
  IsVersion2 marker_key prefix producer t =
      (cob_date : String) × (source_system : String) × (t.cob_date ≡ some cob_date)
      × (t.source_system ≡ some source_system)
      × ((id : String) × (validate_transport_id t.transport_id ≡ ok id))
      × (validate_cob_date date_of text_of_date cob_date ≡ ok cob_date)
      × (validate_source_system source_system ≡ ok source_system)
      × (complete_key date_of text_of_date cob_date source_system t.transport_id prefix
          ≡ ok marker_key)
      × IsEvidence instants lower date_of text_of_date 2 t.transport_id (some cob_date)
          (some source_system) producer
          (transport_prefix date_of text_of_date cob_date source_system t.transport_id prefix) t

  pub parse_v2-IsVersion2 :
      (raw : Dict String Member) (marker_key : String) (prefix : Option String) (t : Transport)
      → parse_v2 instants lower date_of text_of_date raw marker_key prefix ≡ ok t
      → IsVersion2 marker_key prefix
          (required_text "producer_run_id" raw >>= λ value. ok (some value))
          t
  unfolding parse_v2
  parse_v2-IsVersion2 raw marker_key prefix t h =
      let producer = required_text "producer_run_id" raw >>= λ value. ok (some value) in
      let (_, _, h) =
        first_step (refuse_if (not (all (contains (keys raw)) v2_fields)) contract_error) _ h in
      let (_, _, h) =
        first_step (refuse_if (not (all (contains v2_fields) (keys raw))) contract_error) _ h in
      let (id, _, h) = first_step (text_member "transport_id" raw) _ h in
      let (valid, is_valid, h) = first_step (validate_transport_id id) _ h in
      let (date_text, _, h) = first_step (text_member "cob_date" raw) _ h in
      let (date, is_date, h) = first_step (validate_cob_date date_of text_of_date date_text) _ h in
      let (system_text, _, h) = first_step (text_member "source_system" raw) _ h in
      let (system, is_system, h) = first_step (validate_source_system system_text) _ h in
      let (expected, is_expected, h) =
        first_step (complete_key date_of text_of_date date system id prefix) _ h in
      let (_, same_key, h) =
        first_step (refuse_if (not (marker_key == expected)) contract_error) _ h in
      let folder = λ (s : String). transport_prefix date_of text_of_date date system s prefix in
      let read =
        parse_evidence-IsEvidence instants lower date_of text_of_date 2 id (some date) (some system)
          producer (folder id) raw t h in
      let same : id ≡ t.transport_id = sym read.1 in
      let key : expected ≡ marker_key = ground (arith, same_key) in
      (
        date,
        system,
        read.2,
        read.3,
        (valid, subst (λ s. validate_transport_id s ≡ ok valid) same is_valid),
        subst (λ s. validate_cob_date date_of text_of_date s ≡ ok date)
            (validate_cob_date-same date_of text_of_date date_text date is_date) is_date,
        subst (λ s. validate_source_system s ≡ ok system)
            (validate_source_system-same system_text system is_system) is_system,
        subst (λ s. complete_key date_of text_of_date date system s prefix ≡ ok marker_key) same
            (is_expected ∙ ap ok key),
        subst
            (λ s.
              IsEvidence instants lower date_of text_of_date 2 s (some date) (some system) producer
                (folder s) t)
            same read,
      )
