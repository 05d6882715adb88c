-- ===== src/Transport/Marked.antt =====
-- What the bucket holds after the last step of a publication, which writes the marker or finds one.
use reporting_platform_local.Common.{
  Bool, true, false, Option, some, Dict, String, Result, ok, err, Date, string_eq, ◌≡◌, refl, subst,
  arith, All, first_step,
}
use reporting_platform_local.Transport.Paths.{TransportError}
use reporting_platform_local.Transport.Document.{
  Member, Document, Instants, Transport, serialize_transport,
}
use reporting_platform_local.Transport.Marker.{parse_transport}
use reporting_platform_local.Transport.Canonical.{IsLower, IsInstants}
use reporting_platform_local.Transport.RoundTrip.{IsJson, parse_transport-serialize_transport}
use reporting_platform_local.Transport.Uploads.{Storage, PublishResult, after_put, after_look}
use reporting_platform_local.Transport.Publisher.{require_same, reuse_marker, write_marker}
use reporting_platform_local.Transport.Durable.{View, IsStorage, IsStored, IsKept, IsStored-kept}

module _ {S : Type 0} (Q : PublishResult → S → Type 0) where
  after_put-lem :
      (written : Result TransportError Bool) (last : S) (candidate : Transport)
      (reused : Result TransportError PublishResult × S) (r : PublishResult)
      → (reused.0 ≡ ok r → Q r reused.1)
      → (written ≡ ok true → Q (record { transport = candidate; newly_published = true }) last)
      → (after_put written last candidate reused).0 ≡ ok r
      → Q r (after_put written last candidate reused).1
  after_put-lem (err fault) last candidate reused r old new h = cc
  after_put-lem (ok false) last candidate reused r old new h = old h
  after_put-lem (ok true) last candidate reused r old new h =
      let same : record { transport = candidate; newly_published = true } ≡ r = ground (arith, h) in
      subst (λ r. Q r last) same (new refl)

  after_look-lem :
      (found : Result TransportError Bool) (looked : S)
      (reused created : Result TransportError PublishResult × S) (r : PublishResult)
      → (reused.0 ≡ ok r → Q r reused.1)
      → (created.0 ≡ ok r → Q r created.1)
      → (after_look found looked reused created).0 ≡ ok r
      → Q r (after_look found looked reused created).1
  after_look-lem (err fault) looked reused created r old new h = cc
  after_look-lem (ok true) looked reused created r old new h = old h
  after_look-lem (ok false) looked reused created r old new h = new h

module _ {S Body : Type 0} (storage : Storage S Body) (view : View S Body)
    (promised : IsStorage storage view) (instants : Instants) (lower : String → String)
    (date_of : String → Option Date) (text_of_date : Date → String) (loads : Body → Option Document)
    (dumps : Dict String Member → Body) where
  -- A stored marker that is accepted for the transport
  abbrev pub IsMarked : S → String → Option String → Transport → Type 0
  IsMarked s marker_key prefix t =
      (body : Body) × (view.stored s marker_key ≡ some body)
      × (parse_transport instants lower date_of text_of_date (loads body) marker_key prefix ≡ ok t)

  -- What a result says of the bucket
  abbrev pub IsPublished : String → Option String → PublishResult → S → Type 0
  IsPublished marker_key prefix r s =
      IsMarked s marker_key prefix r.transport
      × (r.newly_published ≡ true → All (IsStored storage view promised s) r.transport.files)

  reuse_marker-IsPublished :
      (marker_key : String) (prefix : Option String) (candidate : Transport) (s : S)
      (r : PublishResult)
      → (reuse_marker storage instants lower date_of text_of_date loads dumps marker_key prefix
          candidate s).0
        ≡ ok r
      → IsPublished marker_key prefix r
          (reuse_marker storage instants lower date_of text_of_date loads dumps marker_key prefix
            candidate s).1
  unfolding reuse_marker
  reuse_marker-IsPublished marker_key prefix candidate s r h =
      let (body, got, h) = first_step (storage.get_object marker_key s).0 _ h in
      let (existing, parsed, h) =
        first_step
          (parse_transport instants lower date_of text_of_date (loads body) marker_key prefix) _
          h in
      let (_, _, h) =
        first_step
          (require_same storage instants lower date_of text_of_date loads dumps existing candidate)
          _ h in
      let same : record { transport = existing; newly_published = false } ≡ r = ground (arith, h) in
      subst (λ r. IsPublished marker_key prefix r (storage.get_object marker_key s).1) same
        ((body, promised.read marker_key s body got, parsed), λ never. cc)

  module _ (dates : IsInstants instants) (digests : IsLower lower) (json : IsJson loads dumps) where
    pub write_marker-IsPublished :
        (marker_key : String) (prefix : Option String) (candidate : Transport)
        (document : Option Document) (s : S) (r : PublishResult)
        → parse_transport instants lower date_of text_of_date document marker_key prefix
          ≡ ok candidate
        → All (IsStored storage view promised s) candidate.files
        → (write_marker storage instants lower date_of text_of_date loads dumps marker_key prefix
            candidate s).0
          ≡ ok r
        → IsPublished marker_key prefix r
            (write_marker storage instants lower date_of text_of_date loads dumps marker_key prefix
              candidate s).1
    unfolding write_marker
    write_marker-IsPublished marker_key prefix candidate document s r accepted there h =
        let looked = (storage.object_exists marker_key s).1 in
        let body = serialize_transport instants dumps candidate in
        let last = (storage.put_new marker_key body looked).1 in
        let reuse =
          reuse_marker storage instants lower date_of text_of_date loads dumps marker_key prefix
            candidate in
        let reused = reuse_marker-IsPublished marker_key prefix candidate in
        let kept : IsKept storage view promised s last = λ j b e.
          promised.put_keeps marker_key body looked j b
            (promised.exists_keeps marker_key s j b e) in
        let read =
          parse_transport-serialize_transport instants lower date_of text_of_date dates digests
            loads dumps json document marker_key prefix candidate accepted in
        after_look-lem (IsPublished marker_key prefix) (storage.object_exists marker_key s).0 looked
          (reuse looked)
          (after_put (storage.put_new marker_key body looked).0 last candidate (reuse last)) r
          (reused looked r)
          (after_put-lem (IsPublished marker_key prefix) (storage.put_new marker_key body looked).0
            last candidate (reuse last) r (reused last r)
            (λ created. (
              (body, promised.created marker_key body looked created, read),
              λ _. IsStored-kept storage view promised s last candidate.files kept there,
            )))
          h
