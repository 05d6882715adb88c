-- ===== src/Transport/Uploading.antt =====
-- `publish_object` of reporting_transport/storage.py, and the upload of a file by one request or in
-- parts. The parts are sent one after another, which is one of the orders that the pool of threads
-- allows. A path is looked up in what the process sees of its file, where a path that cannot be read
-- is missing; the reports of a method and of a part count are left out.
use reporting_platform_local.Common.{
  ℕ, suc, Bool, true, false, not, ◌&&◌, Option, none, some, List, [], ◌∷◌, length, String, ◌==◌,
  if◌then◌else◌, ltb, leb, nat_eq, string_eq, option_eq, truthy,
}
use reporting_platform_local.Transport.Paths.{contract_error, source_mutated, storage_error}
use reporting_platform_local.Transport.Actions.{
  Action, pure, raise, on_failure, refuse_if, ◌>>=◌, ◌>>◌,
}
use reporting_platform_local.Transport.Client.{
  Bytes, PutAnswer, precondition_failed, stored, Receipt, Part, Client, Digest, Stat, SourceFile,
  chunks, ceil_div, hexdigest, composite_of,
}
use reporting_platform_local.Transport.Tuning.{UploadTuning, max_object_size, max_part_count}
use reporting_platform_local.Transport.Evidence.{
  expected_b64, is_plain, object_exists, verify_unless, confirm_durable,
}
use reporting_platform_local.Transport.Uploads.{PublishedObject, Storage}

-- `_validate_size`
unfoldable pub validate_size : {S : Type 0} → UploadTuning → ℕ → Action S (Unit {0})
validate_size upload size =
    refuse_if (ltb max_object_size size) contract_error
    >> refuse_if
        (leb upload.multipart_threshold size
          && ltb max_part_count (ceil_div size upload.multipart_part_size))
        contract_error

abbrev pub same_stat : {S : Type 0} → Stat → Option Stat → Action S (Unit {0})
same_stat before none = raise source_mutated
same_stat before (some after) =
    refuse_if (not (after.size == before.size && after.mtime == before.mtime)) source_mutated

-- `_guard_mutation`
unfoldable pub guard_mutation : {S : Type 0} → SourceFile → ℕ → Action S (Unit {0})
guard_mutation file bytes_read =
    refuse_if (not (bytes_read == file.before.size)) source_mutated
    >> same_stat file.before file.after

-- `upload.checksum_mode != "full_download"`
abbrev pub wants_checksum : UploadTuning → Bool
wants_checksum upload = not (upload.checksum_mode == "full_download")

-- The entry of a part: its checksum only where one was asked for and came back
abbrev part_checksum : Bool → Option String → Option String
part_checksum want none = none
part_checksum want (some c) = if want && truthy c then some c else none

unfoldable pub parts_of : Bool → ℕ → List Receipt → List Part
parts_of want n [] = []
parts_of want n (r ∷ rs) =
    record { number = n; etag = r.etag; checksum = part_checksum want r.checksum }
    ∷ parts_of want (suc n) rs

abbrev pub read_or_raise : {S : Type 0} → Option Bytes → Action S Bytes
read_or_raise none = raise storage_error
read_or_raise (some body) = pure body

abbrev pub has_stored : PutAnswer → Bool
has_stored precondition_failed = false
has_stored (stored returned) = true

module _ {S : Type 0} (client : Client S) where
  -- `client.get_object(...)["Body"].read()`
  abbrev pub read_object : String → Action S Bytes
  read_object key = client.get_object key >>= read_or_raise

  -- A create-only `client.put_object(...)`
  abbrev pub put_new : String → Bytes → Action S Bool
  put_new key body = client.put_object false key body >>= λ answer. pure (has_stored answer)

module _ {S : Type 0} (client : Client S) (digest : Digest) (upload : UploadTuning) where
  abbrev pub object_of : Bytes → PublishedObject
  object_of body = record { bytes = length body; sha256 = hexdigest digest body }

  -- `_confirm_durable` of what has been read
  abbrev pub confirm_body : String → Bytes → Action S PublishedObject
  confirm_body key body =
      confirm_durable client digest key (length body) (hexdigest digest body) upload.checksum_mode
      >> pure (object_of body)

  abbrev pub verify_body_unless : Bool → String → Bytes → Action S PublishedObject
  verify_body_unless verified key body =
      verify_unless client digest verified key (length body) (hexdigest digest body)
      >> pure (object_of body)

  -- The checksum that a single request has returned
  abbrev returned_matches : Bytes → Option String → Bool
  returned_matches body none = false
  returned_matches body (some returned) =
      is_plain digest returned && returned == expected_b64 digest (hexdigest digest body)

  abbrev pub after_single : String → Bytes → PutAnswer → Action S PublishedObject
  after_single key body precondition_failed = confirm_body key body
  after_single key body (stored returned) =
      verify_body_unless (wants_checksum upload && returned_matches body returned) key body

  -- `_upload_single`
  unfoldable pub upload_single : String → Bytes → Action S PublishedObject
  upload_single key body =
      client.put_object (wants_checksum upload) key body >>= after_single key body

  unfoldable pub upload_parts : String → String → ℕ → List Bytes → Action S (List Receipt)
  upload_parts key upload_id n [] = pure []
  upload_parts key upload_id n (part ∷ parts) =
      client.upload_part (wants_checksum upload) key upload_id n part >>= λ receipt.
      upload_parts key upload_id (suc n) parts >>= λ receipts. pure (receipt ∷ receipts)

  -- `parts_checksums_ok`
  unfoldable pub parts_checksums_ok : List Bytes → List Receipt → Bool
  parts_checksums_ok (part ∷ parts) (r ∷ rs) =
      r.checksum == some (digest.b64encode (digest.sha256 part)) && parts_checksums_ok parts rs
  parts_checksums_ok [] rs = wants_checksum upload
  parts_checksums_ok (part ∷ parts) [] = wants_checksum upload

  -- `_abort_multipart`: its own failure is not raised.
  abbrev pub abort_multipart : String → String → S → S
  abort_multipart key upload_id s = (client.abort_multipart_upload key upload_id s).1

  abbrev pub assembled : List Bytes → List Receipt → Option String → Bool
  assembled parts receipts returned =
      wants_checksum upload
      && parts_checksums_ok parts receipts
      && returned == some (composite_of digest parts)

  abbrev pub after_complete :
      String → Bytes → List Bytes → List Receipt → PutAnswer → Action S PublishedObject
  after_complete key body parts receipts precondition_failed = confirm_body key body
  after_complete key body parts receipts (stored returned) =
      verify_body_unless (assembled parts receipts returned) key body

  -- `_upload_multipart` from its identifier on
  abbrev pub upload_as : String → Bytes → List Bytes → String → Action S PublishedObject
  upload_as key body parts upload_id =
      on_failure (upload_parts key upload_id 1 parts) (abort_multipart key upload_id)
      >>= λ receipts.
          on_failure (refuse_if (length receipts == 0) contract_error)
            (abort_multipart key upload_id)
          >> on_failure
              (client.complete_multipart_upload key upload_id
                (parts_of (wants_checksum upload) 1 receipts))
              (abort_multipart key upload_id)
          >>= after_complete key body parts receipts

  unfoldable pub upload_multipart : String → Bytes → Action S PublishedObject
  upload_multipart key body =
      let parts = chunks (length body) upload.multipart_part_size body in
      client.create_multipart_upload (wants_checksum upload) key >>= upload_as key body parts

  -- `size < upload.multipart_threshold`
  abbrev pub upload_by : Bool → String → Bytes → Action S PublishedObject
  upload_by true key body = upload_single key body
  upload_by false key body = upload_multipart key body

  abbrev pub reuse_or_upload : SourceFile → String → Bool → Action S PublishedObject
  reuse_or_upload file key true =
      guard_mutation file (length file.body) >> confirm_body key file.body
  reuse_or_upload file key false =
      validate_size upload file.before.size
      >> upload_by (ltb file.before.size upload.multipart_threshold) key file.body
      >>= λ published. guard_mutation file published.bytes >> pure published

  abbrev pub publish_file : String → Option SourceFile → Action S PublishedObject
  publish_file key none = raise storage_error
  publish_file key (some file) = object_exists client key >>= reuse_or_upload file key

  module _ (files : String → Option SourceFile) where
    unfoldable pub publish_object : String → String → Action S PublishedObject
    publish_object key path = publish_file key (files path)

    -- What the publisher calls
    abbrev pub storage_of : Storage S Bytes
    storage_of = record {
      publish_object = publish_object;
      object_exists = object_exists client;
      get_object = read_object client;
      put_new = put_new client;
    }
