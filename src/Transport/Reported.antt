-- ===== src/Transport/Reported.antt =====
-- What `publish_object` of reporting_transport/storage.py reports of a file, and what it makes of an
-- object that is there already.
use reporting_platform_local.Common.{
  ℕ, Bool, true, false, not, ◌&&◌, Option, none, some, List, length, String, ◌==◌, ok, ◌≡◌, sym, ap,
  ◌∙◌, subst, arith, ◌≤◌, nat_eq, string_eq, option_eq, ltb, eq_of_==,
}
use reporting_platform_local.Transport.Paths.{contract_error, source_mutated}
use reporting_platform_local.Transport.Actions.{
  Action, pure, on_failure, refuse_if, ◌>>◌, Ensures, Ensures-bind, Ensures-refuse_if,
  Ensures-refuse_if_last,
}
use reporting_platform_local.Transport.Client.{
  Bytes, PutAnswer, precondition_failed, stored, Receipt, Client, Digest, Stat, SourceFile,
  hexdigest,
}
use reporting_platform_local.Transport.Stored.{IsDigest, IsClient}
use reporting_platform_local.Transport.Verified.{Ensures-then}
use reporting_platform_local.Transport.Evidence.{object_exists, verify_unless, confirm_durable}
use reporting_platform_local.Transport.Tuning.{UploadTuning}
use reporting_platform_local.Transport.Uploads.{PublishedObject}
use reporting_platform_local.Transport.Uploaded.{publish_file-IsDurable}
use reporting_platform_local.Transport.KeptByUploads.{publish_file-Keeps}
use reporting_platform_local.Transport.Uploading.{
  validate_size, guard_mutation, same_stat, wants_checksum, parts_of, object_of, confirm_body,
  verify_body_unless, after_single, upload_single, upload_parts, abort_multipart, after_complete,
  upload_as, upload_multipart, upload_by, reuse_or_upload, publish_file, publish_object,
}

-- A file whose size and time are afterwards what they were before
abbrev pub IsUntouched : Stat → Option Stat → Type 0
IsUntouched before none = ⊥
IsUntouched before (some after) = (after.size ≡ before.size) × (after.mtime ≡ before.mtime)

same_stat-IsUntouched :
    {S : Type 0} (before : Stat) (after : Option Stat) (s : S)
    → Ensures (same_stat before after) s (λ _ _. IsUntouched before after)
same_stat-IsUntouched before none s a e = cc
same_stat-IsUntouched before (some after) s a e =
    Ensures-refuse_if_last (not (after.size == before.size && after.mtime == before.mtime))
      source_mutated s (λ _ _. IsUntouched before (some after))
      (λ same. (ground (arith, same), ground (arith, same))) a e

guard_mutation-IsUntouched :
    {S : Type 0} (file : SourceFile) (n : ℕ) (s : S)
    → Ensures
        (guard_mutation file n)
        s
        (λ _ _. (n ≡ file.before.size) × IsUntouched file.before file.after)
unfolding guard_mutation
guard_mutation-IsUntouched file n s =
    Ensures-refuse_if (not (n == file.before.size)) source_mutated
      (same_stat file.before file.after) s
      (λ _ _. (n ≡ file.before.size) × IsUntouched file.before file.after)
      (λ same a e. (
        eq_of_== n file.before.size (ground (arith, same)),
        same_stat-IsUntouched file.before file.after s a e,
      ))

module _ {S : Type 0} (client : Client S) (digest : Digest) (upload : UploadTuning) where
  abbrev IsReportOf : Bytes → PublishedObject → S → Type 0
  IsReportOf body p s = object_of client digest upload body ≡ p

  abbrev Says : Bytes → Action S PublishedObject → Type 0
  Says body m = (s : S) → Ensures m s (IsReportOf body)

  confirm_body-Says :
      (key : String) (body : Bytes) → Says body (confirm_body client digest upload key body)
  confirm_body-Says key body s =
      Ensures-bind
        (confirm_durable client digest key (length body) (hexdigest digest body)
          upload.checksum_mode)
        (λ _. pure (object_of client digest upload body)) s (IsReportOf body)
        (λ _ _ p e. ground (arith, e))

  verify_body-Says :
      (b : Bool) (key : String) (body : Bytes)
      → Says body (verify_body_unless client digest upload b key body)
  verify_body-Says b key body s =
      Ensures-bind (verify_unless client digest b key (length body) (hexdigest digest body))
        (λ _. pure (object_of client digest upload body)) s (IsReportOf body)
        (λ _ _ p e. ground (arith, e))

  after_single-Says :
      (key : String) (body : Bytes) (answer : PutAnswer)
      → Says body (after_single client digest upload key body answer)
  after_single-Says key body precondition_failed = confirm_body-Says key body
  after_single-Says key body (stored returned) = verify_body-Says _ key body

  after_complete-Says :
      (key : String) (body : Bytes) (parts : List Bytes) (receipts : List Receipt)
      (answer : PutAnswer)
      → Says body (after_complete client digest upload key body parts receipts answer)
  after_complete-Says key body parts receipts precondition_failed = confirm_body-Says key body
  after_complete-Says key body parts receipts (stored returned) = verify_body-Says _ key body

  upload_as-Says :
      (key : String) (body : Bytes) (parts : List Bytes) (upload_id : String)
      → Says body (upload_as client digest upload key body parts upload_id)
  upload_as-Says key body parts upload_id s =
      let abort = abort_multipart client digest upload key upload_id in
      Ensures-bind (on_failure (upload_parts client digest upload key upload_id 1 parts) abort) _ s
        (IsReportOf body)
        (λ receipts _.
          Ensures-bind
            (on_failure (refuse_if (length receipts == 0) contract_error) abort
              >> on_failure
                  (client.complete_multipart_upload key upload_id
                    (parts_of (wants_checksum upload) 1 receipts))
                  abort)
            _ _ (IsReportOf body)
            (λ answer _. after_complete-Says key body parts receipts answer _))

  upload_by-Says :
      (single : Bool) (key : String) (body : Bytes)
      → Says body (upload_by client digest upload single key body)
  unfolding upload_single upload_multipart
  upload_by-Says true key body s =
      Ensures-bind (client.put_object (wants_checksum upload) key body) _ s (IsReportOf body)
        (λ answer _. after_single-Says key body answer _)
  upload_by-Says false key body s =
      Ensures-bind (client.create_multipart_upload (wants_checksum upload) key) _ s
        (IsReportOf body) (λ upload_id _. upload_as-Says key body _ upload_id _)

  -- The report describes the file, which has not been touched meanwhile.
  abbrev pub IsReport : SourceFile → PublishedObject → Type 0
  IsReport file p =
      (object_of client digest upload file.body ≡ p)
      × (length file.body ≡ file.before.size)
      × IsUntouched file.before file.after

  reuse_or_upload-IsReport :
      (file : SourceFile) (key : String) (there : Bool) (s : S)
      → Ensures (reuse_or_upload client digest upload file key there) s (λ p _. IsReport file p)
  reuse_or_upload-IsReport file key true s =
      Ensures-then (guard_mutation file (length file.body)) _ s
        (λ _ _. (length file.body ≡ file.before.size) × IsUntouched file.before file.after)
        (λ p _. IsReport file p) (guard_mutation-IsUntouched file (length file.body) s)
        (λ _ (size, untouched) p e. (confirm_body-Says key file.body _ p e, size, untouched))
  reuse_or_upload-IsReport file key false s =
      let single = ltb file.before.size upload.multipart_threshold in
      let send = upload_by client digest upload single key file.body in
      Ensures-then (validate_size upload file.before.size >> send) _ s (IsReportOf file.body)
        (λ p _. IsReport file p)
        (Ensures-bind (validate_size upload file.before.size) (λ _. send) s (IsReportOf file.body)
          (λ _ _. upload_by-Says single key file.body _))
        (λ published right.
          Ensures-then (guard_mutation file published.bytes) _ _
            (λ _ _. (published.bytes ≡ file.before.size) × IsUntouched file.before file.after)
            (λ p _. IsReport file p) (guard_mutation-IsUntouched file published.bytes _)
            (λ _ (size, untouched) p e.
              (right ∙ ground (arith, e), ap (λ p. p.bytes) right ∙ size, untouched)))

  module _ (files : String → Option SourceFile) where
    -- What `publish_object` reports is the length and the digest of the bytes that it has read from
    -- the file, which is as long as before, and is neither resized nor touched afterwards.
    pub publish_object-IsReport :
        (key path : String) (file : SourceFile) (s : S) (p : PublishedObject)
        → files path ≡ some file
        → (publish_object client digest upload files key path s).0 ≡ ok p
        → IsReport file p
    unfolding publish_object object_exists
    publish_object-IsReport key path file s p found e =
        let read = subst (λ o. (publish_file client digest upload key o s).0 ≡ ok p) found e in
        Ensures-bind (object_exists client key) _ s (λ p _. IsReport file p)
          (λ there _. reuse_or_upload-IsReport file key there _) p read

  -- For a client that keeps its promises, digests whose encodings lose nothing, and a positive part
  -- size: when `publish_object` returns for a key that an object is stored under, that object has the
  -- length and the digest of the file, and it stays as it is.
  pub publish_object-agrees :
      (object_at : S → String → Option Bytes) (promised : IsClient client digest object_at)
      (codec : IsDigest digest)
      → 1 ≤ upload.multipart_part_size
      → (files : String → Option SourceFile) (key path : String) (file : SourceFile) (there : Bytes)
        (s : S) (p : PublishedObject)
      → files path ≡ some file
      → object_at s key ≡ some there
      → (publish_object client digest upload files key path s).0 ≡ ok p
      → (length there ≡ length file.body)
        × (hexdigest digest there ≡ hexdigest digest file.body)
        × (object_at (publish_object client digest upload files key path s).1 key ≡ some there)
  unfolding publish_object
  publish_object-agrees object_at promised codec positive files key path file there s p found
        present e =
      let (same, _, _) = publish_object-IsReport files key path file s p found e in
      let (body, here, size, sum) =
        publish_file-IsDurable client digest object_at promised codec upload positive key
          (files path) s p e in
      let kept =
        publish_file-Keeps client digest (λ s. object_at s key ≡ some there)
          (promised.reads_keep key there) (promised.writes_keep key there) upload key (files path) s
          present in
      let whole : there ≡ body = ground (arith, here, kept) in
      (
        ap length whole ∙ size ∙ sym (ap (λ p. p.bytes) same),
        ap (hexdigest digest) whole ∙ sum ∙ sym (ap (λ p. p.sha256) same),
        kept,
      )
