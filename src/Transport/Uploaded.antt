-- ===== src/Transport/Uploaded.antt =====
-- The objects that the uploads of reporting_transport/storage.py leave.
use reporting_platform_local.Common.{
  ℕ, Bool, true, false, not, Option, none, some, List, length, String, ◌==◌, ok, ◌≡◌, refl, ap, ◌∙◌,
  arith, ◌≤◌, nat_eq, string_eq, option_eq, ltb, eq_of_==,
}
use reporting_platform_local.Transport.Paths.{contract_error, source_mutated}
use reporting_platform_local.Transport.Actions.{
  pure, on_failure, refuse_if, ◌>>◌, Ensures, Ensures-bind, Ensures-refuse_if,
  Ensures-refuse_if_last, Ensures-on_failure,
}
use reporting_platform_local.Transport.Client.{
  Bytes, PutAnswer, precondition_failed, stored, Receipt, Client, Digest, Stat, SourceFile, chunks,
  join_bytes, hexdigest, composite_of,
}
use reporting_platform_local.Transport.Chunked.{join_bytes-chunks}
use reporting_platform_local.Transport.Stored.{IsDigest, IsClient, HasEvidence}
use reporting_platform_local.Transport.Verified.{
  Ensures-then, Ensures-pure, verify_unless-HasEvidence, confirm_durable-HasEvidence,
}
use reporting_platform_local.Transport.Evidence.{object_exists, verify_unless, confirm_durable}
use reporting_platform_local.Transport.Tuning.{UploadTuning}
use reporting_platform_local.Transport.Uploads.{PublishedObject}
use reporting_platform_local.Transport.Uploading.{
  validate_size, guard_mutation, same_stat, wants_checksum, parts_of, object_of, confirm_body,
  verify_body_unless, after_single, upload_single, upload_parts, abort_multipart, after_complete,
  upload_as, upload_multipart, upload_by, reuse_or_upload, publish_file,
}

-- A file that has been read to the size that it had before, and has not been touched
same_stat-accepts :
    {S : Type 0} (before : Stat) (after : Option Stat) (s : S) (Q : Unit {0} → S → Type 0)
    → Q tt s
    → Ensures (same_stat before after) s Q
same_stat-accepts before none s Q h a e = cc
same_stat-accepts before (some after) s Q h a e =
    Ensures-refuse_if_last _ source_mutated s Q (λ _. h) a e

guard_mutation-accepts :
    {S : Type 0} (file : SourceFile) (n : ℕ) (s : S) (Q : Unit {0} → S → Type 0)
    → (n ≡ file.before.size → Q tt s)
    → Ensures (guard_mutation file n) s Q
unfolding guard_mutation
guard_mutation-accepts file n s Q h =
    Ensures-refuse_if (not (n == file.before.size)) source_mutated
      (same_stat file.before file.after) s Q
      (λ same.
        same_stat-accepts file.before file.after s Q
          (h (eq_of_== n file.before.size (ground (arith, same)))))

module _ {S : Type 0} (client : Client S) (digest : Digest) (object_at : S → String → Option Bytes)
    (promised : IsClient client digest object_at) (codec : IsDigest digest)
    (upload : UploadTuning) where
  -- The object that has been published is stored under its key.
  abbrev pub IsDurable : String → PublishedObject → S → Type 0
  IsDurable key p = HasEvidence client digest object_at key p.bytes p.sha256

  abbrev IsBody : String → Bytes → S → Type 0
  IsBody key body = IsDurable key (object_of client digest upload body)

  confirm_body-IsDurable :
      (key : String) (body : Bytes) (s : S)
      → Ensures (confirm_body client digest upload key body) s (IsDurable key)
  confirm_body-IsDurable key body s =
      Ensures-then
        (confirm_durable client digest key (length body) (hexdigest digest body)
          upload.checksum_mode)
        (λ _. pure (object_of client digest upload body)) s (λ _. IsBody key body) (IsDurable key)
        (confirm_durable-HasEvidence client digest object_at promised codec key (length body) body
          upload.checksum_mode s)
        (λ _ h. Ensures-pure (object_of client digest upload body) _ (IsDurable key) h)

  verify_body-IsDurable :
      (b : Bool) (key : String) (body : Bytes) (s : S)
      → (b ≡ true → IsBody key body s)
      → Ensures (verify_body_unless client digest upload b key body) s (IsDurable key)
  verify_body-IsDurable b key body s h =
      Ensures-then (verify_unless client digest b key (length body) (hexdigest digest body))
        (λ _. pure (object_of client digest upload body)) s (λ _. IsBody key body) (IsDurable key)
        (verify_unless-HasEvidence client digest object_at promised b key (length body)
          (hexdigest digest body) s h)
        (λ _ h. Ensures-pure (object_of client digest upload body) _ (IsDurable key) h)

  after_single-IsDurable :
      (key : String) (body : Bytes) (answer : PutAnswer) (s : S)
      → ((returned : Option String) → answer ≡ stored returned → object_at s key ≡ some body)
      → Ensures (after_single client digest upload key body answer) s (IsDurable key)
  after_single-IsDurable key body precondition_failed s h = confirm_body-IsDurable key body s
  after_single-IsDurable key body (stored returned) s h =
      verify_body-IsDurable _ key body s (λ _. (body, h returned refl, refl, refl))

  after_complete-IsDurable :
      (key : String) (body : Bytes) (parts : List Bytes) (receipts : List Receipt)
      (answer : PutAnswer) (s : S)
      → join_bytes parts ≡ body
      → (answer ≡ stored (some (composite_of digest parts))
          → object_at s key ≡ some (join_bytes parts))
      → Ensures
          (after_complete client digest upload key body parts receipts answer)
          s
          (IsDurable key)
  after_complete-IsDurable key body parts receipts precondition_failed s whole h =
      confirm_body-IsDurable key body s
  after_complete-IsDurable key body parts receipts (stored returned) s whole h =
      verify_body-IsDurable _ key body s (λ same.
        let composite =
          eq_of_== returned (some (composite_of digest parts)) (ground (arith, same)) in
        (body, h (ap stored composite) ∙ ap some whole, refl, refl))

  -- What a completed upload says of the parts that were sent
  abbrev IsAssembled : String → List Bytes → PutAnswer → S → Type 0
  IsAssembled key parts answer s =
      answer ≡ stored (some (composite_of digest parts)) → object_at s key ≡ some (join_bytes parts)

  upload_as-IsDurable :
      (key : String) (body : Bytes) (parts : List Bytes) (upload_id : String) (s : S)
      → join_bytes parts ≡ body
      → Ensures (upload_as client digest upload key body parts upload_id) s (IsDurable key)
  upload_as-IsDurable key body parts upload_id s whole =
      let abort = abort_multipart client digest upload key upload_id in
      Ensures-bind (on_failure (upload_parts client digest upload key upload_id 1 parts) abort) _ s
        (IsDurable key)
        (λ receipts _.
          let entries = parts_of (wants_checksum upload) 1 receipts in
          let refused = on_failure (refuse_if (length receipts == 0) contract_error) abort in
          let completed =
            on_failure (client.complete_multipart_upload key upload_id entries) abort in
          Ensures-then (refused >> completed) _ _ (IsAssembled key parts) (IsDurable key)
            (Ensures-bind refused (λ _. completed) _ (IsAssembled key parts)
              (λ _ _.
                Ensures-on_failure (client.complete_multipart_upload key upload_id entries) abort _
                  (IsAssembled key parts)
                  (λ answer e f. promised.completed key upload_id entries _ parts (e ∙ ap ok f))))
            (λ answer h. after_complete-IsDurable key body parts receipts answer _ whole h))

  upload_by-IsDurable :
      (positive : 1 ≤ upload.multipart_part_size) (single : Bool) (key : String) (body : Bytes)
      (s : S)
      → Ensures (upload_by client digest upload single key body) s (IsDurable key)
  unfolding upload_single upload_multipart
  upload_by-IsDurable positive true key body s =
      Ensures-bind (client.put_object (wants_checksum upload) key body) _ s (IsDurable key)
        (λ answer e.
          after_single-IsDurable key body answer _
            (λ returned f. promised.put (wants_checksum upload) key body s returned (e ∙ ap ok f)))
  upload_by-IsDurable positive false key body s =
      Ensures-bind (client.create_multipart_upload (wants_checksum upload) key) _ s (IsDurable key)
        (λ upload_id e.
          upload_as-IsDurable key body (chunks (length body) upload.multipart_part_size body)
            upload_id _
            (join_bytes-chunks (length body) upload.multipart_part_size body positive
              (omega arith)))

  reuse_or_upload-IsDurable :
      (positive : 1 ≤ upload.multipart_part_size) (file : SourceFile) (key : String) (there : Bool)
      (s : S)
      → Ensures (reuse_or_upload client digest upload file key there) s (IsDurable key)
  reuse_or_upload-IsDurable positive file key true s =
      Ensures-bind (guard_mutation file (length file.body)) _ s (IsDurable key)
        (λ _ _. confirm_body-IsDurable key file.body _)
  reuse_or_upload-IsDurable positive file key false s =
      let single = ltb file.before.size upload.multipart_threshold in
      let send = upload_by client digest upload single key file.body in
      Ensures-then (validate_size upload file.before.size >> send) _ s (IsDurable key)
        (IsDurable key)
        (Ensures-bind (validate_size upload file.before.size) (λ _. send) s (IsDurable key)
          (λ _ _. upload_by-IsDurable positive single key file.body _))
        (λ published h.
          Ensures-then (guard_mutation file published.bytes) (λ _. pure published) _
            (λ _. IsDurable key published) (IsDurable key)
            (guard_mutation-accepts file published.bytes _ (λ _. IsDurable key published) (λ _. h))
            (λ _ h. Ensures-pure published _ (IsDurable key) h))

  refused_file :
      (key : String) (s : S)
      → Ensures (publish_file client digest upload key none) s (IsDurable key)
  refused_file key s p e = cc

  pub publish_file-IsDurable :
      (positive : 1 ≤ upload.multipart_part_size) (key : String) (file : Option SourceFile) (s : S)
      → Ensures (publish_file client digest upload key file) s (IsDurable key)
  publish_file-IsDurable positive key none s = refused_file key s
  publish_file-IsDurable positive key (some file) s =
      Ensures-bind (object_exists client key) _ s (IsDurable key)
        (λ there _. reuse_or_upload-IsDurable positive file key there _)
