-- ===== src/Transport/Evidence.antt =====
-- The checks of stored evidence of reporting_transport/storage.py. An error of the client that says
-- that an object is missing is the answer `none` of the client.
use reporting_platform_local.Common.{
  ℕ, Bool, true, false, not, ◌&&◌, Option, none, some, length, String, ◌==◌, nat_eq, string_eq,
  truthy,
}
use reporting_platform_local.Transport.Paths.{evidence_error}
use reporting_platform_local.Transport.Actions.{
  Action, pure, raise, attempt, refuse_if, ◌>>=◌, ◌>>◌,
}
use reporting_platform_local.Transport.Client.{Head, Client, Digest, is_composite, hexdigest}

-- `is_missing(exc)` of an error that is raised again with the evidence's error
abbrev pub present : {S A : Type 0} → Option A → Action S A
present none = raise evidence_error
present (some a) = pure a

abbrev found : {A : Type 0} → Option A → Bool
found none = false
found (some a) = true

module _ (digest : Digest) where
  -- `base64.b64encode(bytes.fromhex(expected_sha256)).decode()`
  abbrev pub expected_b64 : String → String
  expected_b64 expected_sha256 = digest.b64encode (digest.fromhex expected_sha256)

  -- A checksum that says what the digest of the whole object is
  abbrev pub is_plain : String → Bool
  is_plain c = truthy c && not (is_composite digest c)

unfoldable pub object_exists : {S : Type 0} → Client S → String → Action S Bool
object_exists client key = client.head_object false key >>= λ head. pure (found head)

module _ {S : Type 0} (client : Client S) (digest : Digest) where
  unfoldable pub verify_object_evidence : String → ℕ → String → Action S (Unit {0})
  verify_object_evidence key expected_bytes expected_sha256 =
      client.head_object false key >>= present >>= λ head.
      refuse_if (not (head.content_length == expected_bytes)) evidence_error
      >> (client.get_object key >>= present >>= λ body.
          refuse_if
            (not (length body == expected_bytes && hexdigest digest body == expected_sha256))
            evidence_error)

  abbrev pub judge_plain : Bool → String → String → Action S Bool
  judge_plain false expected c = pure false
  judge_plain true expected c = refuse_if (not (c == expected)) evidence_error >> pure true

  abbrev pub judge_checksum : String → Option String → Action S Bool
  judge_checksum expected_sha256 none = pure false
  judge_checksum expected_sha256 (some c) =
      judge_plain (is_plain digest c) (expected_b64 digest expected_sha256) c

  abbrev pub judge_head : ℕ → String → Option (Option Head) → Action S Bool
  judge_head expected_bytes expected_sha256 none = pure false
  judge_head expected_bytes expected_sha256 (some none) = raise evidence_error
  judge_head expected_bytes expected_sha256 (some (some head)) =
      refuse_if (not (head.content_length == expected_bytes)) evidence_error
      >> judge_checksum expected_sha256 head.checksum

  -- `_try_cheap_verify`, with `false` for its `None`
  unfoldable pub try_cheap_verify : String → ℕ → String → Action S Bool
  try_cheap_verify key expected_bytes expected_sha256 =
      attempt (client.head_object true key) >>= judge_head expected_bytes expected_sha256

  abbrev pub verify_unless : Bool → String → ℕ → String → Action S Bool
  verify_unless true key expected_bytes expected_sha256 = pure true
  verify_unless false key expected_bytes expected_sha256 =
      verify_object_evidence key expected_bytes expected_sha256 >> pure false

  abbrev pub cheaply : Bool → String → ℕ → String → Action S Bool
  cheaply true key expected_bytes expected_sha256 =
      try_cheap_verify key expected_bytes expected_sha256
  cheaply false key expected_bytes expected_sha256 = pure false

  -- `_confirm_durable`
  unfoldable pub confirm_durable : String → ℕ → String → String → Action S Bool
  confirm_durable key expected_bytes expected_sha256 checksum_mode =
      cheaply (not (checksum_mode == "full_download")) key expected_bytes expected_sha256
      >>= λ cheap. verify_unless cheap key expected_bytes expected_sha256
