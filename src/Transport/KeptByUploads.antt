-- ===== src/Transport/KeptByUploads.antt =====
-- The uploads of reporting_transport/storage.py keep what the client's operations keep.
use reporting_platform_local.Common.{
  ℕ, suc, Bool, true, false, not, Option, none, some, List, [], ◌∷◌, length, String, ◌==◌, nat_eq,
  string_eq, ltb,
}
use reporting_platform_local.Transport.Paths.{contract_error, source_mutated}
use reporting_platform_local.Transport.Actions.{
  on_failure, refuse_if, ◌>>◌, Keeps, Keeps-bind, Keeps-on_failure, Keeps-refuse_if,
}
use reporting_platform_local.Transport.Client.{Bytes, Client, Digest, Stat, SourceFile}
use reporting_platform_local.Transport.Kept.{
  after_single-Keeps, after_complete-Keeps, confirm_body-Keeps, object_exists-Keeps,
}
use reporting_platform_local.Transport.Stored.{KeepsReads, KeepsWrites}
use reporting_platform_local.Transport.Evidence.{object_exists}
use reporting_platform_local.Transport.Tuning.{UploadTuning, max_object_size}
use reporting_platform_local.Transport.Uploading.{
  put_new, validate_size, guard_mutation, same_stat, wants_checksum, parts_of, upload_single,
  upload_parts, abort_multipart, upload_as, upload_multipart, upload_by, reuse_or_upload,
  publish_file,
}

module _ {S : Type 0} (client : Client S) (digest : Digest) (P : S → Type 0)
    (reads : KeepsReads client P) (writes : KeepsWrites client P) (upload : UploadTuning) where
  pub put_new-Keeps : (key : String) (new : Bytes) → Keeps P (put_new client key new)
  put_new-Keeps key new =
      Keeps-bind P (client.put_object false key new) _ (writes.put_keeps false key new)
        (λ answer s h. h)

  upload_parts-Keeps :
      (key upload_id : String) (n : ℕ) (parts : List Bytes)
      → Keeps P (upload_parts client digest upload key upload_id n parts)
  unfolding upload_parts
  upload_parts-Keeps key upload_id n [] s h = h
  upload_parts-Keeps key upload_id n (part ∷ parts) s h =
      Keeps-bind P (client.upload_part (wants_checksum upload) key upload_id n part) _
        (writes.part_keeps (wants_checksum upload) key upload_id n part)
        (λ receipt.
          Keeps-bind P (upload_parts client digest upload key upload_id (suc n) parts) _
            (upload_parts-Keeps key upload_id (suc n) parts) (λ _ s h. h))
        s h

  upload_as-Keeps :
      (key : String) (body : Bytes) (parts : List Bytes) (upload_id : String)
      → Keeps P (upload_as client digest upload key body parts upload_id)
  upload_as-Keeps key body parts upload_id =
      let abort = abort_multipart client digest upload key upload_id in
      let aborted = writes.abort_keeps key upload_id in
      Keeps-bind P (on_failure (upload_parts client digest upload key upload_id 1 parts) abort) _
        (Keeps-on_failure P _ abort (upload_parts-Keeps key upload_id 1 parts) aborted)
        (λ receipts.
          Keeps-bind P
            (on_failure (refuse_if (length receipts == 0) contract_error) abort
              >> on_failure
                  (client.complete_multipart_upload key upload_id
                    (parts_of (wants_checksum upload) 1 receipts))
                  abort)
            _
            (Keeps-bind P (on_failure (refuse_if (length receipts == 0) contract_error) abort) _
              (Keeps-on_failure P (refuse_if (length receipts == 0) contract_error) abort
                (Keeps-refuse_if P (length receipts == 0) contract_error) aborted)
              (λ _.
                Keeps-on_failure P
                  (client.complete_multipart_upload key upload_id
                    (parts_of (wants_checksum upload) 1 receipts))
                  abort
                  (writes.complete_keeps key upload_id
                    (parts_of (wants_checksum upload) 1 receipts))
                  aborted))
            (after_complete-Keeps client digest P reads upload key body parts receipts))

  upload_by-Keeps :
      (single : Bool) (key : String) (body : Bytes)
      → Keeps P (upload_by client digest upload single key body)
  unfolding upload_single upload_multipart
  upload_by-Keeps true key body s h =
      Keeps-bind P (client.put_object (wants_checksum upload) key body) _
        (writes.put_keeps (wants_checksum upload) key body)
        (after_single-Keeps client digest P reads upload key body) s h
  upload_by-Keeps false key body s h =
      Keeps-bind P (client.create_multipart_upload (wants_checksum upload) key) _
        (writes.create_keeps (wants_checksum upload) key) (upload_as-Keeps key body _) s h

  same_stat-Keeps : (before : Stat) (after : Option Stat) → Keeps P (same_stat before after)
  same_stat-Keeps before none s h = h
  same_stat-Keeps before (some after) s h = Keeps-refuse_if P _ source_mutated s h

  guard_mutation-Keeps : (file : SourceFile) (n : ℕ) → Keeps P (guard_mutation file n)
  unfolding guard_mutation
  guard_mutation-Keeps file n =
      Keeps-bind P (refuse_if (not (n == file.before.size)) source_mutated) _
        (Keeps-refuse_if P _ source_mutated) (λ _. same_stat-Keeps file.before file.after)

  validate_size-Keeps : (upload : UploadTuning) (n : ℕ) → Keeps P (validate_size upload n)
  unfolding validate_size
  validate_size-Keeps upload n =
      Keeps-bind P (refuse_if (ltb max_object_size n) contract_error) _
        (Keeps-refuse_if P _ contract_error) (λ _. Keeps-refuse_if P _ contract_error)

  reuse_or_upload-Keeps :
      (file : SourceFile) (key : String) (exists_ : Bool)
      → Keeps P (reuse_or_upload client digest upload file key exists_)
  reuse_or_upload-Keeps file key true s h =
      Keeps-bind P (guard_mutation file (length file.body)) _
        (guard_mutation-Keeps file (length file.body))
        (λ _. confirm_body-Keeps client digest P reads upload key file.body) s h
  reuse_or_upload-Keeps file key false s h =
      let send =
        upload_by client digest upload (ltb file.before.size upload.multipart_threshold) key
          file.body in
      Keeps-bind P (validate_size upload file.before.size >> send) _
        (Keeps-bind P (validate_size upload file.before.size) (λ _. send)
          (validate_size-Keeps upload file.before.size)
          (λ _. upload_by-Keeps (ltb file.before.size upload.multipart_threshold) key file.body))
        (λ published.
          Keeps-bind P (guard_mutation file published.bytes) _
            (guard_mutation-Keeps file published.bytes) (λ _ s h. h))
        s h

  pub publish_file-Keeps :
      (key : String) (file : Option SourceFile)
      → Keeps P (publish_file client digest upload key file)
  publish_file-Keeps key none s h = h
  publish_file-Keeps key (some file) s h =
      Keeps-bind P (object_exists client key) _ (object_exists-Keeps client digest P reads key)
        (reuse_or_upload-Keeps file key) s h
