-- ===== src/Transport/Stored.antt =====
-- What reporting_transport/storage.py relies on of the client and the digests, and the objects that
-- its checks of evidence accept.
use reporting_platform_local.Common.{
  ℕ, Bool, true, Option, some, List, length, String, ok, ◌≡◌, nat_eq, string_eq,
}
use reporting_platform_local.Transport.Actions.{Keeps}
use reporting_platform_local.Transport.Client.{
  Bytes, Head, stored, Part, Client, Digest, join_bytes, hexdigest, composite_of,
}
use reporting_platform_local.Transport.Evidence.{is_plain}

-- The encodings lose nothing of a digest.
pub record IsDigest (digest : Digest) : Type 0 where
  pub fromhex_hex :
      (body : Bytes) → digest.fromhex (digest.hex (digest.sha256 body)) ≡ digest.sha256 body
  pub b64encode_inj :
      (a b : Bytes)
      → digest.b64encode (digest.sha256 a) ≡ digest.b64encode (digest.sha256 b)
      → digest.sha256 a ≡ digest.sha256 b

-- A predicate of states that the client's reads keep, and one that its writes keep
pub record KeepsReads {S : Type 0} (client : Client S) (P : S → Type 0) : Type 0 where
  pub head_keeps : (want : Bool) (key : String) → Keeps P (client.head_object want key)
  pub get_keeps : (key : String) → Keeps P (client.get_object key)

pub record KeepsWrites {S : Type 0} (client : Client S) (P : S → Type 0) : Type 0 where
  pub put_keeps :
      (want : Bool) (key : String) (new : Bytes) → Keeps P (client.put_object want key new)
  pub create_keeps :
      (want : Bool) (key : String) → Keeps P (client.create_multipart_upload want key)
  pub part_keeps :
      (want : Bool) (key upload_id : String) (n : ℕ) (part : Bytes)
      → Keeps P (client.upload_part want key upload_id n part)
  pub complete_keeps :
      (key upload_id : String) (parts : List Part)
      → Keeps P (client.complete_multipart_upload key upload_id parts)
  pub abort_keeps : (key upload_id : String) → Keeps P (client.abort_multipart_upload key upload_id)

-- The object store's promises: an object that is there stays as it is, since every write is
-- create-only; `head_object` and `get_object` describe what is there, and a plain checksum is its
-- digest; a request that is answered has stored its body; and a completed upload whose checksum is
-- the one of some parts has joined those.
pub record IsClient {S : Type 0} (client : Client S) (digest : Digest)
    (object_at : S → String → Option Bytes) : Type 0 where
  pub reads_keep : (j : String) (body : Bytes) → KeepsReads client (λ s. object_at s j ≡ some body)
  pub writes_keep :
      (j : String) (body : Bytes) → KeepsWrites client (λ s. object_at s j ≡ some body)
  pub headed :
      (want : Bool) (key : String) (s : S) (head : Head)
      → (client.head_object want key s).0 ≡ ok (some head)
      → (body : Bytes) × (object_at (client.head_object want key s).1 key ≡ some body)
        × (length body ≡ head.content_length)
        × ((c : String)
            → head.checksum ≡ some c
            → is_plain digest c ≡ true
            → c ≡ digest.b64encode (digest.sha256 body))
  pub got :
      (key : String) (s : S) (body : Bytes)
      → (client.get_object key s).0 ≡ ok (some body)
      → object_at (client.get_object key s).1 key ≡ some body
  pub put :
      (want : Bool) (key : String) (body : Bytes) (s : S) (returned : Option String)
      → (client.put_object want key body s).0 ≡ ok (stored returned)
      → object_at (client.put_object want key body s).1 key ≡ some body
  pub completed :
      (key upload_id : String) (parts : List Part) (s : S) (sent : List Bytes)
      → (client.complete_multipart_upload key upload_id parts s).0
        ≡ ok (stored (some (composite_of digest sent)))
      → object_at (client.complete_multipart_upload key upload_id parts s).1 key
        ≡ some (join_bytes sent)

module _ {S : Type 0} (client : Client S) (digest : Digest)
    (object_at : S → String → Option Bytes) where
  -- An object of a length and a digest
  abbrev pub HasEvidence : String → ℕ → String → S → Type 0
  HasEvidence key bytes sha256 s =
      (body : Bytes) × (object_at s key ≡ some body)
      × (length body ≡ bytes)
      × (hexdigest digest body ≡ sha256)
