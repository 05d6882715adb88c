-- ===== src/Transport/Reparsed.antt =====
-- A marker that is written from an accepted transport is accepted as the same transport.
use reporting_platform_local.Common.{
  ℕ, true, Option, none, some, List, map, lookup, Dict, String, Result, ok, Date, string_eq, nat_eq,
  text_order, ◌≡◌, arith, first_step, Result-cases, inl, inr,
}
use reporting_platform_local.Transport.Paths.{TransportError}
use reporting_platform_local.Transport.Parse.{
  text, FileValue, object, TransportFile, parse_each, parse_files,
}
use reporting_platform_local.Transport.Document.{
  Member, scalar, array, Instants, Transport, timestamp, file_dict, sort_members,
}
use reporting_platform_local.Transport.Marker.{
  is_trimmed, required_text, files_of, parse_timestamp, parse_evidence,
}
use reporting_platform_local.Transport.Canonical.{
  IsLower, IsInstants, required_text-IsTrimmed, required_text_again, parse_timestamp_again,
  parse_each_again,
}

abbrev pub sorted_files : List TransportFile → List FileValue
sorted_files files = map (λ f. object (sort_members (file_dict f))) files

module _ (lower : String → String) (good : IsLower lower) where
  parse_files_again :
      (folder : String) (values : Option (List FileValue)) (files : List TransportFile)
      → parse_files lower folder values ≡ ok files
      → parse_files lower folder (some (sorted_files files)) ≡ ok files
  unfolding parse_files
  parse_files_again folder none files h = cc
  parse_files_again folder (some values) files h =
      elim (Result-cases (parse_each lower folder values)) [
        | inr (fault, e) ↦ absurd (ground (arith, h, e))
        | inl (parsed, e) ↦
            let same : parsed ≡ files = ground (arith, h, e) in
            let again = parse_each_again lower good folder values files (rw same at e) in
            ground (arith, h, e, same, again)
      ]

module _ (instants : Instants) where
  -- The members that both versions read, as they are written of a transport
  abbrev pub IsWritten : Dict String Member → Transport → Type 0
  IsWritten raw t =
      (lookup "transport_id" raw ≡ some (scalar (text t.transport_id)))
      × (lookup "source" raw ≡ some (scalar (text t.source)))
      × (lookup "legacy_feed_id" raw ≡ some (scalar (text t.legacy_feed_id)))
      × (lookup "source_observed_at" raw
          ≡ some (scalar (text (timestamp instants t.source_observed_at))))
      × (lookup "uploaded_at" raw ≡ some (scalar (text (timestamp instants t.uploaded_at))))
      × (lookup "files" raw ≡ some (array (sorted_files t.files)))

module _ (instants : Instants) (lower : String → String) (date_of : String → Option Date)
    (text_of_date : Date → String) where
  -- What the fields of an accepted transport have been read for
  abbrev pub IsEvidence :
      ℕ
      → String
      → Option String
      → Option String
      → Result TransportError (Option String)
      → Result TransportError String
      → Transport
      → Type 0
  IsEvidence version transport_id cob_date source_system producer expected_prefix t =
      (t.transport_contract_version ≡ version)
      × (t.transport_id ≡ transport_id)
      × (t.cob_date ≡ cob_date)
      × (t.source_system ≡ source_system)
      × (producer ≡ ok t.producer_run_id)
      × (is_trimmed t.source ≡ true)
      × (is_trimmed t.legacy_feed_id ≡ true)
      × ((folder : String) × (expected_prefix ≡ ok folder)
          × ((values : Option (List FileValue)) × (parse_files lower folder values ≡ ok t.files)))

  pub parse_evidence-IsEvidence :
      (version : ℕ) (transport_id : String) (cob_date source_system : Option String)
      (producer : Result TransportError (Option String))
      (expected_prefix : Result TransportError String) (raw : Dict String Member) (t : Transport)
      → parse_evidence instants lower date_of text_of_date version transport_id cob_date
          source_system producer expected_prefix raw
        ≡ ok t
      → IsEvidence version transport_id cob_date source_system producer expected_prefix t
  unfolding parse_evidence
  parse_evidence-IsEvidence version transport_id cob_date source_system producer expected_prefix raw
        t h =
      let (source, source_read, h) = first_step (required_text "source" raw) _ h in
      let (legacy, legacy_read, h) = first_step (required_text "legacy_feed_id" raw) _ h in
      let (run, run_read, h) = first_step producer _ h in
      let (observed, _, h) = first_step (parse_timestamp instants "source_observed_at" raw) _ h in
      let (uploaded, _, h) = first_step (parse_timestamp instants "uploaded_at" raw) _ h in
      let (folder, folder_read, h) = first_step expected_prefix _ h in
      let (files, files_read, h) =
        first_step (parse_files lower folder (files_of (lookup "files" raw))) _ h in
      (
        ground (arith, h),
        ground (arith, h),
        ground (arith, h),
        ground (arith, h),
        ground (arith, h, run_read),
        ground (arith, h, required_text-IsTrimmed "source" raw source source_read),
        ground (arith, h, required_text-IsTrimmed "legacy_feed_id" raw legacy legacy_read),
        (folder, folder_read, (files_of (lookup "files" raw), ground (arith, h, files_read))),
      )

  module _ (dates : IsInstants instants) (digests : IsLower lower) where
    pub parse_evidence_again :
        (raw : Dict String Member) (t : Transport)
        (before after : Result TransportError (Option String))
        (expected_prefix : Result TransportError String)
        → IsWritten instants raw t
        → after ≡ ok t.producer_run_id
        → IsEvidence t.transport_contract_version t.transport_id t.cob_date t.source_system before
            expected_prefix t
        → parse_evidence instants lower date_of text_of_date t.transport_contract_version
            t.transport_id t.cob_date t.source_system after expected_prefix raw
          ≡ ok t
    unfolding parse_evidence
    parse_evidence_again raw t before after expected_prefix
          (_, source, legacy, observed, uploaded, listed) run
          (
            _,
            _,
            _,
            _,
            _,
            source_trimmed,
            legacy_trimmed,
            (folder, folder_read, (values, accepted)),
          ) =
        ground (
          arith,
          run,
          folder_read,
          required_text_again "source" raw t.source source source_trimmed,
          required_text_again "legacy_feed_id" raw t.legacy_feed_id legacy legacy_trimmed,
          parse_timestamp_again instants dates "source_observed_at" raw t.source_observed_at
              observed,
          parse_timestamp_again instants dates "uploaded_at" raw t.uploaded_at uploaded,
          listed,
          parse_files_again lower digests folder values t.files accepted,
        )
