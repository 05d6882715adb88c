-- ===== src/Transport/Published.antt =====
-- The marker that a successful publication leaves, and the objects that it describes.
use reporting_platform_local.Common.{
  Bool, true, Option, List, [], ◌∷◌, Dict, String, Result, ok, err, Date, string_eq, text_of,
  lookup, ◌≡◌, refl, sym, subst, arith, All,
}
use reporting_platform_local.Transport.Paths.{TransportError}
use reporting_platform_local.Transport.Parse.{TransportFile}
use reporting_platform_local.Transport.LocalFiles.{LocalFile}
use reporting_platform_local.Transport.Document.{Member, Document, Instants, Transport}
use reporting_platform_local.Transport.Marker.{parse_transport}
use reporting_platform_local.Transport.Canonical.{IsLower, IsInstants}
use reporting_platform_local.Transport.RoundTrip.{IsJson}
use reporting_platform_local.Transport.Declared.{parse_transport-declared}
use reporting_platform_local.Transport.Uploads.{
  Storage, Request, Prepared, PublishResult, raw_of, publish_objects,
}
use reporting_platform_local.Transport.Publisher.{
  after_candidate, after_objects, after_prepare, prepare, candidate_of, publish_prepared,
  publish_transport_result,
}
use reporting_platform_local.Transport.Durable.{
  View, IsStorage, IsStored, publish_objects-IsStored, after_object-ok,
}
use reporting_platform_local.Transport.Marked.{IsMarked, IsPublished, write_marker-IsPublished}

module _ {S Body : Type 0} (storage : Storage S Body) (view : View S Body)
    (promised : IsStorage storage view) (instants : Instants) (lower : String → String)
    (date_of : String → Option Date) (text_of_date : Date → String) (loads : Body → Option Document)
    (dumps : Dict String Member → Body) where
  module _ (dates : IsInstants instants) (digests : IsLower lower) (json : IsJson loads dumps) where
    -- The hexadecimal text of a digest is in lower case.
    module _ (name_of : String → String) (is_file : String → Bool)
        (hex : (body : Body) → lower (view.sha256 body) ≡ view.sha256 body) where
      publish_objects-lower :
          (folder : String) (fs : List LocalFile) (s : S) (declared : List TransportFile)
          → (publish_objects storage folder fs s).0 ≡ ok declared
          → All (λ f. lower f.sha256 ≡ f.sha256) declared
      unfolding publish_objects
      publish_objects-lower folder [] s [] h = tt
      publish_objects-lower folder [] s (f ∷ declared) h = absurd (ground (arith, h))
      publish_objects-lower folder (f ∷ fs) s declared h =
          let key = text_of (folder ∷ f.name ∷ []) in
          let (published, after) = storage.publish_object key f.path s in
          let rest = publish_objects storage folder fs after in
          let (p, e, (others, later, same), _) =
            after_object-ok storage view promised f key published after rest declared h in
          let (body, _, _, digest) = promised.published key f.path s p e in
          subst (All (λ f. lower f.sha256 ≡ f.sha256)) same (
            subst (λ d. lower d ≡ d) digest (hex body),
            publish_objects-lower folder fs after others later,
          )

      either_after_candidate :
          (request : Request) (prepared : Prepared) (accepted : Result TransportError Transport)
          (after : S) (r : PublishResult)
          → ((candidate : Transport)
              → accepted ≡ ok candidate
              → All (IsStored storage view promised after) candidate.files)
          → ((candidate : Transport)
              → accepted ≡ ok candidate
              → (document : Option Document) × (parse_transport instants lower date_of text_of_date
                    document prepared.marker_key request.prefix
                  ≡ ok candidate))
          → (after_candidate storage instants lower date_of text_of_date loads dumps name_of is_file
              prepared request.prefix accepted after).0
            ≡ ok r
          → IsPublished storage view promised instants lower date_of text_of_date loads dumps
              prepared.marker_key request.prefix r
              (after_candidate storage instants lower date_of text_of_date loads dumps name_of
                is_file prepared request.prefix accepted after).1
      either_after_candidate request prepared (err fault) after r there parsed h = cc
      either_after_candidate request prepared (ok candidate) after r there parsed h =
          let (document, accepted) = parsed candidate refl in
          write_marker-IsPublished storage view promised instants lower date_of text_of_date loads
            dumps dates digests json prepared.marker_key request.prefix candidate document after r
            accepted (there candidate refl) h

      after_objects-IsPublished :
          (request : Request) (prepared : Prepared)
          (declared : Result TransportError (List TransportFile)) (after : S) (r : PublishResult)
          → ((files : List TransportFile)
              → declared ≡ ok files
              → All (IsStored storage view promised after) files
                × All (λ f. lower f.sha256 ≡ f.sha256) files)
          → (after_objects storage instants lower date_of text_of_date loads dumps name_of is_file
              request prepared declared after).0
            ≡ ok r
          → IsPublished storage view promised instants lower date_of text_of_date loads dumps
              prepared.marker_key request.prefix r
              (after_objects storage instants lower date_of text_of_date loads dumps name_of is_file
                request prepared declared after).1
      unfolding candidate_of lookup string_eq
      after_objects-IsPublished request prepared (err fault) after r stored h = cc
      after_objects-IsPublished request prepared (ok files) after r stored h =
          let (there, digested) = stored files refl in
          let raw = raw_of request prepared.transport_id files in
          either_after_candidate request prepared
            (candidate_of storage instants lower date_of text_of_date loads dumps name_of is_file
              request prepared files)
            after r
            (λ candidate e.
              let read =
                subst
                  (λ d.
                    parse_transport instants lower date_of text_of_date d prepared.marker_key
                      request.prefix
                    ≡ ok candidate)
                  (json.read raw) e in
              let same =
                parse_transport-declared instants lower date_of text_of_date raw files
                  prepared.marker_key request.prefix candidate read refl digested in
              subst (All (IsStored storage view promised after)) (sym same) there)
            (λ candidate e. (loads (dumps raw), e)) h

      after_prepare-IsPublished :
          (request : Request) (checked : Result TransportError Prepared) (s : S) (r : PublishResult)
          → (after_prepare storage instants lower date_of text_of_date loads dumps name_of is_file
              request checked s).0
            ≡ ok r
          → (prepared : Prepared) × (checked ≡ ok prepared)
            × IsPublished storage view promised instants lower date_of text_of_date loads dumps
                prepared.marker_key request.prefix r
                (after_prepare storage instants lower date_of text_of_date loads dumps name_of
                  is_file request checked s).1
      unfolding publish_prepared
      after_prepare-IsPublished request (err fault) s r h = cc
      after_prepare-IsPublished request (ok prepared) s r h =
          let (declared, after) = publish_objects storage prepared.folder prepared.local s in
          (
            prepared,
            refl,
            after_objects-IsPublished request prepared declared after r
                (λ files d. (
                  publish_objects-IsStored storage view promised prepared.folder prepared.local s
                      files d,
                  publish_objects-lower prepared.folder prepared.local s files d,
                ))
                h,
          )

      -- When a publication succeeds, whether it is new or a retry, the bucket holds a marker under
      -- the key that the request derives, and the marker is accepted there as the very transport
      -- that is returned, whatever other publishers add meanwhile. This is given the promises of the
      -- bucket's operations, that `json.loads` reads what `json.dumps` writes, that instants are read
      -- back from their texts, and that `str.lower` leaves digests as they are.
      pub publish_transport_result-IsMarked :
          (request : Request) (s : S) (r : PublishResult)
          → (publish_transport_result storage instants lower date_of text_of_date loads dumps
              name_of is_file request s).0
            ≡ ok r
          → (prepared : Prepared) × (prepare storage instants lower date_of text_of_date loads dumps
                name_of is_file request
              ≡ ok prepared)
            × IsMarked storage view promised instants lower date_of text_of_date loads dumps
                (publish_transport_result storage instants lower date_of text_of_date loads dumps
                  name_of is_file request s).1
                prepared.marker_key
                request.prefix
                r.transport
      unfolding publish_transport_result
      publish_transport_result-IsMarked request s r h =
          let (prepared, e, (marked, _)) =
            after_prepare-IsPublished request
              (prepare storage instants lower date_of text_of_date loads dumps name_of is_file
                request)
              s r h in
          (prepared, e, marked)

      -- A marker that is newly published never describes bytes other than those that are stored:
      -- each file of the transport is in the bucket under its key, with the size and the digest
      -- that the transport declares. This is given the promises of the bucket's operations, that
      -- `json.loads` reads what `json.dumps` writes, that instants are read back from their texts,
      -- and that `str.lower` leaves digests as they are.
      pub publish_transport_result-IsStored :
          (request : Request) (s : S) (r : PublishResult)
          → (publish_transport_result storage instants lower date_of text_of_date loads dumps
              name_of is_file request s).0
            ≡ ok r
          → r.newly_published ≡ true
          → All
              (IsStored storage view promised
                (publish_transport_result storage instants lower date_of text_of_date loads dumps
                  name_of is_file request s).1)
              r.transport.files
      unfolding publish_transport_result
      publish_transport_result-IsStored request s r h new =
          let (prepared, e, (_, there)) =
            after_prepare-IsPublished request
              (prepare storage instants lower date_of text_of_date loads dumps name_of is_file
                request)
              s r h in
          there new
