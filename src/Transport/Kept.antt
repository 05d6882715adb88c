-- ===== src/Transport/Kept.antt =====
-- The reads and the checks of evidence of reporting_transport/storage.py keep what the client's
-- reads keep.
use reporting_platform_local.Common.{
  List, length, ℕ, Bool, true, false, not, Option, none, some, String, ◌==◌, nat_eq, string_eq,
}
use reporting_platform_local.Transport.Paths.{evidence_error}
use reporting_platform_local.Transport.Actions.{
  attempt, refuse_if, ◌>>=◌, Keeps, Keeps-bind, Keeps-attempt, Keeps-refuse_if,
}
use reporting_platform_local.Transport.Client.{
  Bytes, Head, PutAnswer, precondition_failed, stored, Receipt, Client, Digest, hexdigest,
}
use reporting_platform_local.Transport.Stored.{KeepsReads}
use reporting_platform_local.Transport.Evidence.{
  present, object_exists, judge_plain, judge_checksum, judge_head, try_cheap_verify,
  verify_object_evidence, verify_unless, cheaply, confirm_durable,
}
use reporting_platform_local.Transport.Tuning.{UploadTuning}
use reporting_platform_local.Transport.Uploading.{
  confirm_body, verify_body_unless, after_single, after_complete, read_or_raise, read_object,
}

module _ {S : Type 0} (client : Client S) (digest : Digest) (P : S → Type 0)
    (reads : KeepsReads client P) where
  present-Keeps : {A : Type 0} (o : Option A) → Keeps P (present o)
  present-Keeps none s h = h
  present-Keeps (some a) s h = h

  pub object_exists-Keeps : (key : String) → Keeps P (object_exists client key)
  unfolding object_exists
  object_exists-Keeps key =
      Keeps-bind P (client.head_object false key) _ (reads.head_keeps false key) (λ head s h. h)

  read_or_raise-Keeps : (o : Option Bytes) → Keeps P (read_or_raise o)
  read_or_raise-Keeps none s h = h
  read_or_raise-Keeps (some body) s h = h

  pub read_object-Keeps : (key : String) → Keeps P (read_object client key)
  read_object-Keeps key =
      Keeps-bind P (client.get_object key) _ (reads.get_keeps key) read_or_raise-Keeps

  verify-Keeps :
      (key : String) (n : ℕ) (sha256 : String)
      → Keeps P (verify_object_evidence client digest key n sha256)
  unfolding verify_object_evidence
  verify-Keeps key n sha256 =
      Keeps-bind P (client.head_object false key >>= present) _
        (Keeps-bind P (client.head_object false key) present (reads.head_keeps false key)
          present-Keeps)
        (λ head.
          Keeps-bind P (refuse_if (not (head.content_length == n)) evidence_error) _
            (Keeps-refuse_if P _ evidence_error)
            (λ _.
              Keeps-bind P (client.get_object key >>= present) _
                (Keeps-bind P (client.get_object key) present (reads.get_keeps key) present-Keeps)
                (λ body. Keeps-refuse_if P _ evidence_error)))

  judge_plain-Keeps :
      (b : Bool) (expected c : String) → Keeps P (judge_plain client digest b expected c)
  judge_plain-Keeps false expected c s h = h
  judge_plain-Keeps true expected c s h =
      Keeps-bind P (refuse_if (not (c == expected)) evidence_error) _
        (Keeps-refuse_if P _ evidence_error) (λ _ s h. h) s h

  judge_checksum-Keeps :
      (sha256 : String) (o : Option String) → Keeps P (judge_checksum client digest sha256 o)
  judge_checksum-Keeps sha256 none s h = h
  judge_checksum-Keeps sha256 (some c) s h = judge_plain-Keeps _ _ c s h

  judge_head-Keeps :
      (n : ℕ) (sha256 : String) (o : Option (Option Head))
      → Keeps P (judge_head client digest n sha256 o)
  judge_head-Keeps n sha256 none s h = h
  judge_head-Keeps n sha256 (some none) s h = h
  judge_head-Keeps n sha256 (some (some head)) s h =
      Keeps-bind P (refuse_if (not (head.content_length == n)) evidence_error) _
        (Keeps-refuse_if P _ evidence_error) (λ _. judge_checksum-Keeps sha256 head.checksum) s h

  cheaply-Keeps :
      (b : Bool) (key : String) (n : ℕ) (sha256 : String)
      → Keeps P (cheaply client digest b key n sha256)
  unfolding try_cheap_verify
  cheaply-Keeps true key n sha256 s h =
      Keeps-bind P (attempt (client.head_object true key)) _
        (Keeps-attempt P (client.head_object true key) (reads.head_keeps true key))
        (judge_head-Keeps n sha256) s h
  cheaply-Keeps false key n sha256 s h = h

  pub verify_unless-Keeps :
      (b : Bool) (key : String) (n : ℕ) (sha256 : String)
      → Keeps P (verify_unless client digest b key n sha256)
  verify_unless-Keeps true key n sha256 s h = h
  verify_unless-Keeps false key n sha256 s h =
      Keeps-bind P (verify_object_evidence client digest key n sha256) _ (verify-Keeps key n sha256)
        (λ _ s h. h) s h

  pub confirm_durable-Keeps :
      (key : String) (n : ℕ) (sha256 mode : String)
      → Keeps P (confirm_durable client digest key n sha256 mode)
  unfolding confirm_durable
  confirm_durable-Keeps key n sha256 mode =
      Keeps-bind P (cheaply client digest (not (mode == "full_download")) key n sha256) _
        (cheaply-Keeps (not (mode == "full_download")) key n sha256)
        (λ cheap. verify_unless-Keeps cheap key n sha256)

  module _ (upload : UploadTuning) where
    pub confirm_body-Keeps :
        (key : String) (body : Bytes) → Keeps P (confirm_body client digest upload key body)
    confirm_body-Keeps key body =
        Keeps-bind P
          (confirm_durable client digest key (length body) (hexdigest digest body)
            upload.checksum_mode)
          _ (confirm_durable-Keeps key (length body) (hexdigest digest body) upload.checksum_mode)
          (λ _ s h. h)

    pub verify_body-Keeps :
        (b : Bool) (key : String) (body : Bytes)
        → Keeps P (verify_body_unless client digest upload b key body)
    verify_body-Keeps b key body =
        Keeps-bind P (verify_unless client digest b key (length body) (hexdigest digest body)) _
          (verify_unless-Keeps b key (length body) (hexdigest digest body)) (λ _ s h. h)

    pub after_single-Keeps :
        (key : String) (body : Bytes) (answer : PutAnswer)
        → Keeps P (after_single client digest upload key body answer)
    after_single-Keeps key body precondition_failed = confirm_body-Keeps key body
    after_single-Keeps key body (stored returned) = verify_body-Keeps _ key body

    pub after_complete-Keeps :
        (key : String) (body : Bytes) (parts : List Bytes) (receipts : List Receipt)
        (answer : PutAnswer)
        → Keeps P (after_complete client digest upload key body parts receipts answer)
    after_complete-Keeps key body parts receipts precondition_failed = confirm_body-Keeps key body
    after_complete-Keeps key body parts receipts (stored returned) = verify_body-Keeps _ key body
