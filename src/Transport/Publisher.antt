-- ===== src/Transport/Publisher.antt =====
-- `publish_transport_result` of reporting_transport/publisher.py, over the operations of
-- reporting_transport/storage.py as an interface. The digests, `json` and the texts of instants are
-- as in `Transport/Marker`; a timestamp is given by its text.
use reporting_platform_local.Common.{
  Bool, false, not, ◌&&◌, Option, List, [], ◌∷◌, Dict, String, ◌==◌, Result, ok, err, ◌>>=◌, ◌>>◌,
  refuse_if, Date, string_eq, nat_eq, option_eq, text_order, text_of,
}
use reporting_platform_local.Transport.Paths.{
  TransportError, conflict_error, validate_transport_id, validate_source_system, validate_cob_date,
  transport_prefix, complete_key,
}
use reporting_platform_local.Transport.Parse.{TransportFile}
use reporting_platform_local.Transport.LocalFiles.{require_token, ordered_local_files}
use reporting_platform_local.Transport.Document.{
  Member, Document, Instants, Transport, timestamp, serialize_transport,
}
use reporting_platform_local.Transport.Marker.{parse_transport}
use reporting_platform_local.Transport.Uploads.{
  Prepared, PublishResult, Request, Storage, after_look, after_put, publish_objects, raw_of,
  same_files, sort_by_key,
}

module _ {S Body : Type 0} (storage : Storage S Body) (instants : Instants)
    (lower : String → String) (date_of : String → Option Date) (text_of_date : Date → String)
    (loads : Body → Option Document) (dumps : Dict String Member → Body) where
  -- `_require_same`, on the members of both dicts but `uploaded_at`
  unfoldable pub require_same : Transport → Transport → Result TransportError (Unit {0})
  require_same existing candidate =
      refuse_if
        (not (
          existing.transport_contract_version == candidate.transport_contract_version
          && existing.transport_id == candidate.transport_id
          && existing.source == candidate.source
          && existing.legacy_feed_id == candidate.legacy_feed_id
          && timestamp instants existing.source_observed_at
            == timestamp instants candidate.source_observed_at
          && same_files (sort_by_key existing.files) (sort_by_key candidate.files)
          && existing.producer_run_id == candidate.producer_run_id
          && existing.cob_date == candidate.cob_date
          && existing.source_system == candidate.source_system))
        conflict_error

  -- `_read_marker`, with `_require_same` and the result of a retry
  unfoldable pub reuse_marker :
      String → Option String → Transport → S → Result TransportError PublishResult × S
  reuse_marker marker_key prefix candidate s =
      let (body, after) = storage.get_object marker_key s in
      (
        (body >>= λ document.
            parse_transport instants lower date_of text_of_date (loads document) marker_key prefix
            >>= λ existing.
                require_same existing candidate
                >> ok (record { transport = existing; newly_published = false })),
        after,
      )

  -- From the look for a marker to the end
  unfoldable pub write_marker :
      String → Option String → Transport → S → Result TransportError PublishResult × S
  write_marker marker_key prefix candidate s =
      let (found, looked) = storage.object_exists marker_key s in
      let (written, last) =
        storage.put_new marker_key (serialize_transport instants dumps candidate) looked in
      after_look found looked (reuse_marker marker_key prefix candidate looked)
        (after_put written last candidate (reuse_marker marker_key prefix candidate last))

  module _ (name_of : String → String) (is_file : String → Bool) where
    unfoldable pub prepare : Request → Result TransportError Prepared
    prepare request = do
      source ← require_token request.source
      _ ← require_token request.legacy_feed_id
      _ ← require_token request.producer_run_id
      _ ← validate_cob_date date_of text_of_date request.cob_date
      _ ← validate_source_system request.source_system
      transport_id ← validate_transport_id (
          text_of
            (lower source ∷ "-" ∷ request.legacy_feed_id ∷ "-" ∷ request.producer_run_id ∷ []))
      local ← ordered_local_files name_of is_file request.files
      folder ←
          transport_prefix date_of text_of_date request.cob_date request.source_system transport_id
            request.prefix
      marker_key ←
          complete_key date_of text_of_date request.cob_date request.source_system transport_id
            request.prefix
      ok (record {
        transport_id = transport_id;
        local = local;
        folder = folder;
        marker_key = marker_key;
      })

    -- `contract.parse_transport(json.dumps(raw), marker_key, prefix)`
    unfoldable pub candidate_of :
        Request → Prepared → List TransportFile → Result TransportError Transport
    candidate_of request prepared declared =
        parse_transport instants lower date_of text_of_date
          (loads (dumps (raw_of request prepared.transport_id declared))) prepared.marker_key
          request.prefix

    abbrev pub after_candidate :
        Prepared
        → Option String
        → Result TransportError Transport
        → S
        → Result TransportError PublishResult × S
    after_candidate prepared prefix (err fault) after = (err fault, after)
    after_candidate prepared prefix (ok candidate) after =
        write_marker prepared.marker_key prefix candidate after

    abbrev pub after_objects :
        Request
        → Prepared
        → Result TransportError (List TransportFile)
        → S
        → Result TransportError PublishResult × S
    after_objects request prepared (err fault) after = (err fault, after)
    after_objects request prepared (ok files) after =
        after_candidate prepared request.prefix (candidate_of request prepared files) after

    -- `publish_transport_result`, from the checked request
    unfoldable pub publish_prepared :
        Request → Prepared → S → Result TransportError PublishResult × S
    publish_prepared request prepared s =
        let (declared, after) = publish_objects storage prepared.folder prepared.local s in
        after_objects request prepared declared after

    abbrev pub after_prepare :
        Request → Result TransportError Prepared → S → Result TransportError PublishResult × S
    after_prepare request (err fault) s = (err fault, s)
    after_prepare request (ok prepared) s = publish_prepared request prepared s

    unfoldable pub publish_transport_result : Request → S → Result TransportError PublishResult × S
    publish_transport_result request s = after_prepare request (prepare request) s
