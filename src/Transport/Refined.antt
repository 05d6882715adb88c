-- ===== src/Transport/Refined.antt =====
-- The operations of reporting_transport/storage.py as the publisher's `Storage`, and its promises.
use reporting_platform_local.Common.{
  true, false, Option, none, some, length, String, ok, ◌≡◌, refl, ap, ◌∙◌, arith, ◌≤◌, nat_eq,
  string_eq, option_eq,
}
use reporting_platform_local.Transport.Actions.{pure, Ensures, Ensures-bind}
use reporting_platform_local.Transport.Client.{
  Bytes, PutAnswer, precondition_failed, stored, Client, Digest, SourceFile, hexdigest,
}
use reporting_platform_local.Transport.Uploaded.{publish_file-IsDurable}
use reporting_platform_local.Transport.Stored.{IsDigest, IsClient}
use reporting_platform_local.Transport.Verified.{Ensures-pure}
use reporting_platform_local.Transport.Evidence.{object_exists}
use reporting_platform_local.Transport.Tuning.{UploadTuning}
use reporting_platform_local.Transport.Durable.{View, IsStorage}
use reporting_platform_local.Transport.Kept.{object_exists-Keeps, read_object-Keeps}
use reporting_platform_local.Transport.KeptByUploads.{put_new-Keeps, publish_file-Keeps}
use reporting_platform_local.Transport.Uploading.{
  has_stored, read_or_raise, read_object, put_new, publish_object, storage_of,
}

module _ {S : Type 0} (client : Client S) (digest : Digest) (object_at : S → String → Option Bytes)
    (promised : IsClient client digest object_at) where
  read_or_raise-stored :
      (key : String) (o : Option Bytes) (s : S)
      → ((body : Bytes) → o ≡ some body → object_at s key ≡ some body)
      → Ensures (read_or_raise o) s (λ body after. object_at after key ≡ some body)
  read_or_raise-stored key none s h b e = cc
  read_or_raise-stored key (some body) s h b e =
      Ensures-pure body s (λ body after. object_at after key ≡ some body) (h body refl) b e

  read_object-stored :
      (key : String) (s : S)
      → Ensures (read_object client key) s (λ body after. object_at after key ≡ some body)
  read_object-stored key s =
      Ensures-bind (client.get_object key) read_or_raise s
        (λ body after. object_at after key ≡ some body)
        (λ o e. read_or_raise-stored key o _ (λ body f. promised.got key s body (e ∙ ap ok f)))

  has_stored-stored :
      (key : String) (new : Bytes) (answer : PutAnswer) (s : S)
      → ((returned : Option String) → answer ≡ stored returned → object_at s key ≡ some new)
      → Ensures (pure (has_stored answer)) s (λ b after. b ≡ true → object_at after key ≡ some new)
  has_stored-stored key new precondition_failed s h b e true_ = absurd (ground (arith, e, true_))
  has_stored-stored key new (stored returned) s h b e true_ = h returned refl

  put_new-stored :
      (key : String) (new : Bytes) (s : S)
      → Ensures (put_new client key new) s (λ b after. b ≡ true → object_at after key ≡ some new)
  put_new-stored key new s =
      Ensures-bind (client.put_object false key new) _ s
        (λ b after. b ≡ true → object_at after key ≡ some new)
        (λ answer e.
          has_stored-stored key new answer _
            (λ returned f. promised.put false key new s returned (e ∙ ap ok f)))

  module _ (codec : IsDigest digest) (upload : UploadTuning)
      (files : String → Option SourceFile) where
    abbrev pub view_of : View S Bytes
    view_of = record { stored = object_at; size = length; sha256 = hexdigest digest }

    -- The uploads and the reads implement the storage that the publisher relies on, for a client that
    -- keeps its promises, digests whose encodings lose nothing, and a positive part size: whatever
    -- they return or raise, every stored object stays as it is; a publication that returns has stored
    -- an object of the size and digest that it reports; what is read is what is stored; and a
    -- create-only write that succeeds has stored its body.
    pub storage_of-IsStorage :
        1 ≤ upload.multipart_part_size → IsStorage (storage_of client digest upload files) view_of
    unfolding object_exists publish_object
    storage_of-IsStorage positive = record {
      publish_keeps = λ key path s j body.
          publish_file-Keeps client digest (λ s. object_at s j ≡ some body)
            (promised.reads_keep j body) (promised.writes_keep j body) upload key (files path) s;
      exists_keeps = λ key s j body.
          object_exists-Keeps client digest (λ s. object_at s j ≡ some body)
            (promised.reads_keep j body) key s;
      get_keeps = λ key s j body.
          read_object-Keeps client digest (λ s. object_at s j ≡ some body)
            (promised.reads_keep j body) key s;
      put_keeps = λ key new s j body.
          put_new-Keeps client digest (λ s. object_at s j ≡ some body) (promised.reads_keep j body)
            (promised.writes_keep j body) upload key new s;
      published = λ key path s.
          publish_file-IsDurable client digest object_at promised codec upload positive key
            (files path) s;
      read = λ key s body h. read_object-stored key s body h;
      created = λ key body s h. put_new-stored key body s true h refl;
    }
