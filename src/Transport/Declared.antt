-- ===== src/Transport/Declared.antt =====
-- Which files a document is accepted for: those that it declares, in order.
use reporting_platform_local.Common.{
  ℕ, not, Option, none, some, List, [], ◌∷◌, map, all, contains, keys, lookup, Dict, String, ◌==◌,
  Result, ok, ◌>>=◌, refuse_if, Date, string_eq, ◌≡◌, sym, ◌∙◌, ap, arith, All, first_step,
  Result-cases, inl, inr,
}
use reporting_platform_local.Transport.Paths.{
  TransportError, contract_error, validate_transport_id, validate_source_system, validate_cob_date,
  transport_prefix, complete_key, transport_prefix_v1, complete_key_v1,
}
use reporting_platform_local.Transport.Parse.{
  object, TransportFile, parse_object, parse_each, parse_files,
}
use reporting_platform_local.Transport.Document.{
  Member, members, Instants, Transport, file_dict, unique_object, unique_members,
}
use reporting_platform_local.Transport.Marker.{
  v1_required, v1_fields, v2_fields, text_member, required_text, optional_text, files_of,
  parse_timestamp, parse_evidence, parse_v1, parse_v2, parse_transport,
}
use reporting_platform_local.Transport.RoundTrip.{parse_object_of-cases}

-- A dict that is accepted has the members it was read from.
unique_object-same :
    {V : Type 0} (seen : List String) (pairs raw : Dict String V)
    → unique_object seen pairs ≡ ok raw
    → pairs ≡ raw
unfolding unique_object
unique_object-same seen [] raw h = ground (arith, h)
unique_object-same seen ((key, value) ∷ pairs) raw h =
    elim (Result-cases (unique_object (key ∷ seen) pairs)) [
      | inr (fault, e) ↦ absurd (ground (arith, h, e))
      | inl (rest, e) ↦
          let same = unique_object-same (key ∷ seen) pairs rest e in
          ap (λ d. (key, value) ∷ d) same ∙ ground (arith, h, e)
    ]

module _ (lower : String → String) where
  parse_object-file_dict :
      (folder : String) (f g : TransportFile)
      → parse_object lower folder (file_dict f) ≡ ok g
      → lower f.sha256 ≡ f.sha256
      → g ≡ f
  unfolding parse_object lookup string_eq
  parse_object-file_dict folder f g h digest = ground (arith, h, digest)

  parse_each-file_dict :
      (folder : String) (declared files : List TransportFile)
      → parse_each lower folder (map (λ f. object (file_dict f)) declared) ≡ ok files
      → All (λ f. lower f.sha256 ≡ f.sha256) declared
      → files ≡ declared
  unfolding parse_each
  parse_each-file_dict folder [] files h digests = ground (arith, h)
  parse_each-file_dict folder (f ∷ declared) files h (digest, digests) =
      let (g, here, h) = first_step (parse_object lower folder (file_dict f)) _ h in
      let (rest, there, h) =
        first_step (parse_each lower folder (map (λ f. object (file_dict f)) declared)) _ h in
      let last : g ∷ rest ≡ files = ground (arith, h) in
      let same = parse_object-file_dict folder f g here digest in
      let others = parse_each-file_dict folder declared rest there digests in
      sym last ∙ λ i. same i ∷ others i

  parse_files-file_dict :
      (folder : String) (declared files : List TransportFile)
      → parse_files lower folder (some (map (λ f. object (file_dict f)) declared)) ≡ ok files
      → All (λ f. lower f.sha256 ≡ f.sha256) declared
      → files ≡ declared
  unfolding parse_files
  parse_files-file_dict folder declared files h digests =
      let (parsed, each, h) =
        first_step (parse_each lower folder (map (λ f. object (file_dict f)) declared)) _ h in
      let last : parsed ≡ files = ground (arith, h) in
      sym last ∙ parse_each-file_dict folder declared parsed each digests

module _ (instants : Instants) (lower : String → String) (date_of : String → Option Date)
    (text_of_date : Date → String) where
  -- The files of an accepted document
  abbrev IsListed : Dict String Member → Transport → Type 0
  IsListed raw t =
      (folder : String) × (parse_files lower folder (files_of (lookup "files" raw)) ≡ ok t.files)

  parse_evidence-IsListed :
      (version : ℕ) (transport_id : String) (cob_date source_system : Option String)
      (producer : Result TransportError (Option String))
      (expected_prefix : Result TransportError String) (raw : Dict String Member) (t : Transport)
      → parse_evidence instants lower date_of text_of_date version transport_id cob_date
          source_system producer expected_prefix raw
        ≡ ok t
      → IsListed raw t
  unfolding parse_evidence
  parse_evidence-IsListed version transport_id cob_date source_system producer expected_prefix raw t
        h =
      let (_, _, h) = first_step (required_text "source" raw) _ h in
      let (_, _, h) = first_step (required_text "legacy_feed_id" raw) _ h in
      let (_, _, h) = first_step producer _ h in
      let (_, _, h) = first_step (parse_timestamp instants "source_observed_at" raw) _ h in
      let (_, _, h) = first_step (parse_timestamp instants "uploaded_at" raw) _ h in
      let (folder, _, h) = first_step expected_prefix _ h in
      let (files, read, h) =
        first_step (parse_files lower folder (files_of (lookup "files" raw))) _ h in
      (folder, ground (arith, h, read))

  parse_v1-IsListed :
      (raw : Dict String Member) (marker_key : String) (prefix : Option String) (t : Transport)
      → parse_v1 instants lower date_of text_of_date raw marker_key prefix ≡ ok t
      → IsListed raw t
  unfolding parse_v1
  parse_v1-IsListed raw marker_key prefix t h =
      let (_, _, h) =
        first_step (refuse_if (not (all (contains (keys raw)) v1_required)) contract_error) _ h in
      let (_, _, h) =
        first_step (refuse_if (not (all (contains v1_fields) (keys raw))) contract_error) _ h in
      let (id, _, h) = first_step (text_member "transport_id" raw) _ h in
      let (_, _, h) = first_step (validate_transport_id id) _ h in
      let (expected, _, h) = first_step (complete_key_v1 id prefix) _ h in
      let (_, _, h) = first_step (refuse_if (not (marker_key == expected)) contract_error) _ h in
      parse_evidence-IsListed 1 id none none (optional_text "producer_run_id" raw)
        (transport_prefix_v1 id prefix) raw t h

  parse_v2-IsListed :
      (raw : Dict String Member) (marker_key : String) (prefix : Option String) (t : Transport)
      → parse_v2 instants lower date_of text_of_date raw marker_key prefix ≡ ok t
      → IsListed raw t
  unfolding parse_v2
  parse_v2-IsListed raw marker_key prefix t h =
      let (_, _, h) =
        first_step (refuse_if (not (all (contains (keys raw)) v2_fields)) contract_error) _ h in
      let (_, _, h) =
        first_step (refuse_if (not (all (contains v2_fields) (keys raw))) contract_error) _ h in
      let (id, _, h) = first_step (text_member "transport_id" raw) _ h in
      let (_, _, h) = first_step (validate_transport_id id) _ h in
      let (date_text, _, h) = first_step (text_member "cob_date" raw) _ h in
      let (date, _, h) = first_step (validate_cob_date date_of text_of_date date_text) _ h in
      let (system_text, _, h) = first_step (text_member "source_system" raw) _ h in
      let (system, _, h) = first_step (validate_source_system system_text) _ h in
      let (expected, _, h) =
        first_step (complete_key date_of text_of_date date system id prefix) _ h in
      let (_, _, h) = first_step (refuse_if (not (marker_key == expected)) contract_error) _ h in
      parse_evidence-IsListed 2 id (some date) (some system)
        (required_text "producer_run_id" raw >>= λ value. ok (some value))
        (transport_prefix date_of text_of_date date system id prefix) raw t h

  -- A document that declares some files is accepted for these files.
  pub parse_transport-declared :
      (pairs : Dict String Member) (declared : List TransportFile) (marker_key : String)
      (prefix : Option String) (t : Transport)
      → parse_transport instants lower date_of text_of_date (some (members pairs)) marker_key prefix
        ≡ ok t
      → files_of (lookup "files" pairs) ≡ some (map (λ f. object (file_dict f)) declared)
      → All (λ f. lower f.sha256 ≡ f.sha256) declared
      → t.files ≡ declared
  unfolding parse_transport
  parse_transport-declared pairs declared marker_key prefix t h files digests =
      let (_, _, h) = first_step (unique_members pairs) _ h in
      let (raw, apart, h) = first_step (unique_object [] pairs) _ h in
      let same = unique_object-same [] pairs raw apart in
      let (folder, read) : IsListed raw t =
        elim (parse_object_of-cases instants lower date_of text_of_date raw marker_key prefix t h) [
          | inl e ↦ parse_v1-IsListed raw marker_key prefix t e
          | inr e ↦ parse_v2-IsListed raw marker_key prefix t e
        ] in
      let on_pairs : parse_files lower folder (files_of (lookup "files" pairs)) ≡ ok t.files =
        rw same read in
      parse_files-file_dict lower folder declared t.files (rw files at on_pairs) digests
