-- ===== src/Transport/Uploads.antt =====
-- What `publish_transport_result` of reporting_transport/publisher.py works on, and the upload of its
-- files, over the operations of reporting_transport/storage.py as an interface.
use reporting_platform_local.Common.{
  ℕ, Bool, true, false, ◌&&◌, Option, List, [], ◌∷◌, map, Dict, String, ◌==◌, less, if◌then◌else◌,
  Result, ok, err, ◌>>=◌, string_eq, nat_eq, option_eq, text_order, text_of, pos,
}
use reporting_platform_local.Transport.Paths.{TransportError, evidence_error, conflict_error}
use reporting_platform_local.Transport.Parse.{integer, text, object, TransportFile}
use reporting_platform_local.Transport.LocalFiles.{LocalFile}
use reporting_platform_local.Transport.Document.{Member, scalar, array, Transport, file_dict}

-- What `publish_object` reports of an object
pub record PublishedObject : Type 0 where
  pub bytes : ℕ
  pub sha256 : String

-- The operations on a bucket, each with the state that it leaves: `put_new` is a create-only
-- `put_object`, which is `false` where its precondition has failed.
pub record Storage (S Body : Type 0) : Type 0 where
  pub publish_object : String → String → S → Result TransportError PublishedObject × S
  pub object_exists : String → S → Result TransportError Bool × S
  pub get_object : String → S → Result TransportError Body × S
  pub put_new : String → Body → S → Result TransportError Bool × S

pub record Request : Type 0 where
  pub legacy_feed_id : String
  pub producer_run_id : String
  pub cob_date : String
  pub source_system : String
  pub source_observed_at : String
  pub uploaded_at : String
  pub source : String
  pub files : List (String × String)
  pub prefix : Option String

-- What has been checked and derived before anything is stored
pub record Prepared : Type 0 where
  pub transport_id : String
  pub local : List LocalFile
  pub folder : String
  pub marker_key : String

pub record PublishResult : Type 0 where
  pub transport : Transport
  pub newly_published : Bool

-- `except TransportEvidenceError as exc: raise TransportConflictError`
abbrev pub as_conflict : TransportError → TransportError
as_conflict evidence_error = conflict_error
as_conflict fault = fault

abbrev pub same_file : TransportFile → TransportFile → Bool
same_file f g =
    f.role == g.role
    && f.original_filename == g.original_filename
    && f.object_key == g.object_key
    && f.bytes == g.bytes
    && f.sha256 == g.sha256

unfoldable pub same_files : List TransportFile → List TransportFile → Bool
same_files [] [] = true
same_files [] (g ∷ gs) = false
same_files (f ∷ fs) [] = false
same_files (f ∷ fs) (g ∷ gs) = same_file f g && same_files fs gs

-- `sorted(files, key=lambda item: item["object_key"])`
unfoldable pub insert_by_key : TransportFile → List TransportFile → List TransportFile
insert_by_key f [] = f ∷ []
insert_by_key f (g ∷ gs) =
    let rest = insert_by_key f gs in
    if less g.object_key f.object_key then g ∷ rest else f ∷ (g ∷ gs)

unfoldable pub sort_by_key : List TransportFile → List TransportFile
sort_by_key [] = []
sort_by_key (f ∷ fs) = insert_by_key f (sort_by_key fs)

abbrev pub declare : LocalFile → String → PublishedObject → TransportFile
declare f key published = record {
  role = f.role;
  original_filename = f.name;
  object_key = key;
  bytes = published.bytes;
  sha256 = published.sha256;
}

-- The document of the candidate
abbrev pub raw_of : Request → String → List TransportFile → Dict String Member
raw_of request transport_id declared =
    ("transport_contract_version", scalar (integer (pos 2)))
    ∷ ("transport_id", scalar (text transport_id))
    ∷ ("source", scalar (text request.source))
    ∷ ("legacy_feed_id", scalar (text request.legacy_feed_id))
    ∷ ("producer_run_id", scalar (text request.producer_run_id))
    ∷ ("cob_date", scalar (text request.cob_date))
    ∷ ("source_system", scalar (text request.source_system))
    ∷ ("source_observed_at", scalar (text request.source_observed_at))
    ∷ ("uploaded_at", scalar (text request.uploaded_at))
    ∷ ("files", array (map (λ f. object (file_dict f)) declared))
    ∷ []

module _ {S : Type 0} where
  -- The rest of the loop, after an object has been published or refused
  abbrev pub after_object :
      LocalFile
      → String
      → Result TransportError PublishedObject
      → S
      → Result TransportError (List TransportFile) × S
      → Result TransportError (List TransportFile) × S
  after_object f key (err fault) after rest = (err (as_conflict fault), after)
  after_object f key (ok stored) after (rest, last) =
      (rest >>= λ declared. ok (declare f key stored ∷ declared), last)

  -- A create-only write of the marker: it is there now, by this publisher or by another.
  abbrev pub after_put :
      Result TransportError Bool
      → S
      → Transport
      → Result TransportError PublishResult × S
      → Result TransportError PublishResult × S
  after_put (err fault) last candidate reused = (err fault, last)
  after_put (ok false) last candidate reused = reused
  after_put (ok true) last candidate reused =
      (ok (record { transport = candidate; newly_published = true }), last)

  abbrev pub after_look :
      Result TransportError Bool
      → S
      → Result TransportError PublishResult × S
      → Result TransportError PublishResult × S
      → Result TransportError PublishResult × S
  after_look (err fault) looked reused created = (err fault, looked)
  after_look (ok true) looked reused created = reused
  after_look (ok false) looked reused created = created

module _ {S Body : Type 0} (storage : Storage S Body) where
  -- The loop over the files, in order, up to the first that is refused
  unfoldable pub publish_objects :
      String → List LocalFile → S → Result TransportError (List TransportFile) × S
  publish_objects folder [] s = (ok [], s)
  publish_objects folder (f ∷ fs) s =
      let key = text_of (folder ∷ f.name ∷ []) in
      let (published, after) = storage.publish_object key f.path s in
      after_object f key published after (publish_objects folder fs after)
