-- ===== src/Tests/Client.antt =====
-- An object store as a dict, and a digest that counts bytes.
use Prim.Native.Char.{char}
use Prim.Native.String.{[], ◌∷◌}
use reporting_platform_local.Common.{
  chars, ℕ, zero, suc, ◌-◌, Bool, true, false, none, some, Option, List, [], ◌∷◌, ◌++◌, String, ◌≡◌,
  refl, ap, arith, Dict, lookup, insert, lookup-insert, Result, ok, err, string_eq, nat_eq,
  option_eq, text_order, length, pos, ltb, ◌≤◌, ℕ_discrete, ◌==◌, if◌then◌else◌, ◌⊎◌, subst, ◌≢◌,
}
use reporting_platform_local.Transport.Paths.{TransportError, evidence_error, storage_error}
use reporting_platform_local.Transport.Client.{
  Bytes, Head, PutAnswer, precondition_failed, stored, Client, Digest, SourceFile, join_bytes,
  chunks, is_composite, digits_to_end, ceil_div, hexdigest, composite_of,
}
use reporting_platform_local.Transport.Evidence.{
  is_plain, object_exists, verify_object_evidence, try_cheap_verify, confirm_durable,
}
use reporting_platform_local.Transport.Stored.{IsDigest, IsClient}
use reporting_platform_local.Transport.Tuning.{UploadTuning, upload_tuning, max_single_put_size}
use reporting_platform_local.Transport.Durable.{IsStorage}
use reporting_platform_local.Transport.Uploading.{
  storage_of, validate_size, publish_object, guard_mutation, upload_single, upload_multipart,
  upload_parts, parts_of, parts_checksums_ok,
}
use reporting_platform_local.Transport.Reported.{
  IsReport, publish_object-IsReport, publish_object-agrees,
}
use reporting_platform_local.Transport.Closed.{IsClosing, Leaks, upload_multipart-IsClosed}
use reporting_platform_local.Transport.Refined.{view_of, storage_of-IsStorage}
use reporting_platform_local.Transport.Limits.{upload-limits, IsCut}

abbrev tally : ℕ → String
tally zero = "0"
tally (suc n) = char 0x31 tt ∷ tally n

untally : (n : ℕ) → chars (tally n) ≡ suc n
untally zero = refl
untally (suc n) = omega (arith, untally n)

abbrev first_of : Bytes → ℕ
first_of [] = 0
first_of (b ∷ bs) = b

abbrev digest : Digest
digest = record {
  sha256 = λ body. length body ∷ [];
  hex = λ d. tally (first_of d);
  fromhex = λ s. (chars s - 1) ∷ [];
  b64encode = λ d. tally (first_of d);
  decimal = tally;
  digit = λ c. c == 0x31;
}

digest-IsDigest : IsDigest digest
digest-IsDigest = record {
  fromhex_hex = λ body. ap (λ n. n ∷ []) (omega (arith, untally (length body)));
  b64encode_inj =
      λ a b e. ap (λ n. n ∷ []) (omega (arith, ap chars e, untally (length a), untally (length b)));
}

-- The objects, and the parts of the upload that is under way
abbrev Store : Type 0
Store = Dict String Bytes × List Bytes

abbrev head_at : Bool → Bytes → Head
head_at want body = record {
  content_length = length body;
  checksum = if want then some (digest.b64encode (digest.sha256 body)) else none;
}

abbrev head_of : Bool → Option Bytes → Option Head
head_of want none = none
head_of want (some body) = some (head_at want body)

abbrev put_at : String → Bytes → Option Bytes → Store → Result TransportError PutAnswer × Store
put_at key body none (objects, parts) = (ok (stored none), (insert key body objects, parts))
put_at key body (some there) s = (ok precondition_failed, s)

abbrev client : Client Store
client = record {
  head_object = λ want key s. (ok (head_of want (lookup key s.0)), s);
  get_object = λ key s. (ok (lookup key s.0), s);
  put_object = λ want key body s. put_at key body (lookup key s.0) s;
  create_multipart_upload = λ want key s. (ok "upload", (s.0, []));
  upload_part = λ want key upload_id n part s.
      (ok (record { etag = tally n; checksum = none }), (s.0, s.1 ++ (part ∷ [])));
  complete_multipart_upload =
      λ key upload_id parts s. put_at key (join_bytes s.1) (lookup key s.0) (s.0, []);
  abort_multipart_upload = λ key upload_id s. (ok tt, (s.0, []));
}

abbrev object_at : Store → String → Option Bytes
object_at s key = lookup key s.0

put_at_keeps :
    (key : String) (new : Bytes) (o : Option Bytes) (s : Store) (j : String) (body : Bytes)
    → lookup key s.0 ≡ o
    → lookup j s.0 ≡ some body
    → lookup j (put_at key new o s).1.0 ≡ some body
put_at_keeps key new none (objects, parts) j body absent h =
    ground (arith, absent, h, lookup-insert j key new objects)
put_at_keeps key new (some there) s j body present h = h

put_at_stores :
    (key : String) (body : Bytes) (o : Option Bytes) (s : Store) (returned : Option String)
    → (put_at key body o s).0 ≡ ok (stored returned)
    → lookup key (put_at key body o s).1.0 ≡ some body
put_at_stores key body none (objects, parts) returned h =
    ground (arith, lookup-insert key key body objects)
put_at_stores key body (some there) s returned h = absurd (ground (arith, h))

put_at_returns :
    (key : String) (body : Bytes) (o : Option Bytes) (s : Store) (c : String)
    → (put_at key body o s).0 ≢ ok (stored (some c))
put_at_returns key body none (objects, parts) c h = absurd (ground (arith, h))
put_at_returns key body (some there) s c h = absurd (ground (arith, h))

head_checksum :
    (want : Bool) (b64 c : String) → (if want then some b64 else none) ≡ some c → c ≡ b64
head_checksum want b64 c h = ground (arith, h)

head_of_head :
    (want : Bool) (key : String) (o : Option Bytes) (s : Store) (head : Head)
    → lookup key s.0 ≡ o
    → head_of want o ≡ some head
    → (body : Bytes) × (lookup key s.0 ≡ some body)
      × (length body ≡ head.content_length)
      × ((c : String)
          → head.checksum ≡ some c
          → is_plain digest c ≡ true
          → c ≡ digest.b64encode (digest.sha256 body))
head_of_head want key none s head e h = cc
head_of_head want key (some body) s head e h =
    subst
      (λ (head : Head).
        (there : Bytes) × (lookup key s.0 ≡ some there)
        × (length there ≡ head.content_length)
        × ((c : String)
            → head.checksum ≡ some c
            → is_plain digest c ≡ true
            → c ≡ digest.b64encode (digest.sha256 there)))
      (ground (arith, h))
      (body, e, refl, λ c f p. head_checksum want (digest.b64encode (digest.sha256 body)) c f)

client-IsClient : IsClient client digest object_at
client-IsClient = record {
  reads_keep = λ j body. record { head_keeps = λ want key s h. h; get_keeps = λ key s h. h };
  writes_keep = λ j body. record {
    put_keeps = λ want key new s h. put_at_keeps key new (lookup key s.0) s j body refl h;
    create_keeps = λ want key s h. h;
    part_keeps = λ want key upload_id n part s h. h;
    complete_keeps = λ key upload_id parts s h.
        put_at_keeps key (join_bytes s.1) (lookup key s.0) (s.0, []) j body refl h;
    abort_keeps = λ key upload_id s h. h;
  };
  headed =
      λ want key s head h. head_of_head want key (lookup key s.0) s head refl (ground (arith, h));
  got = λ key s body h. ground (arith, h);
  put = λ want key body s returned h. put_at_stores key body (lookup key s.0) s returned h;
  completed = λ key upload_id parts s sent h.
      absurd (put_at_returns key (join_bytes s.1) (lookup key s.0) (s.0, []) _ h);
}

abbrev upload : UploadTuning
upload = record {
  multipart_threshold = 4;
  multipart_part_size = 2;
  multipart_max_concurrency = 4;
  checksum_mode = "auto";
}

abbrev file_of : Bytes → Option SourceFile
file_of body = some (record {
  before = record { size = length body; mtime = 7 };
  body = body;
  after = some (record { size = length body; mtime = 7 });
})

abbrev files : String → Option SourceFile
files path = if path == "large.csv" then file_of (1 ∷ 2 ∷ 3 ∷ 4 ∷ 5 ∷ []) else file_of (1 ∷ 2 ∷ [])

program : Unit {0}
unfolding publish_object object_exists verify_object_evidence try_cheap_verify confirm_durable
    upload_single upload_multipart upload_parts parts_of parts_checksums_ok chunks ceil_div
    is_composite digits_to_end hexdigest composite_of validate_size guard_mutation upload_tuning
    lookup insert string_eq nat_eq option_eq ℕ_discrete
program = tt

-- A large file is stored in one piece, and a retry finds it.
large_run :
    (publish_object client digest upload files "k" "large.csv" ([], [])).1.0
    ≡ ("k", 1 ∷ 2 ∷ 3 ∷ 4 ∷ 5 ∷ []) ∷ []
unfolding program
large_run = refl

retry_run :
    (publish_object client digest upload files "k" "large.csv"
      (publish_object client digest upload files "k" "large.csv" ([], [])).1).0
    ≡ ok (record { bytes = 5; sha256 = tally 5 })
unfolding program
retry_run = refl

-- Another file under the same key is refused.
conflict_run :
    (publish_object client digest upload files "k" "small.csv"
      (publish_object client digest upload files "k" "large.csv" ([], [])).1).0
    ≡ err evidence_error
unfolding program
conflict_run = refl

storage_of-IsStorage_example :
    IsStorage
      (storage_of client digest upload files)
      (view_of client digest object_at client-IsClient digest-IsDigest upload files)
storage_of-IsStorage_example =
    storage_of-IsStorage client digest object_at client-IsClient digest-IsDigest upload files
      (omega arith)

tuned : upload_tuning (pos 4) (pos 2) (pos 4) "auto" ≡ ok upload
unfolding program
tuned = refl

valid : (validate_size {S = Store} upload 5 ([], [])).0 ≡ ok tt
unfolding program
valid = refl

upload-limits_example :
    ((ltb 5 4 ≡ true) × (5 ≤ max_single_put_size))
    ⊎ ((ltb 5 4 ≡ false) × IsCut (1 ∷ 2 ∷ 3 ∷ 4 ∷ 5 ∷ []) (chunks 5 2 (1 ∷ 2 ∷ 3 ∷ 4 ∷ 5 ∷ [])))
upload-limits_example =
    upload-limits {S = Store} (pos 4) (pos 2) (pos 4) "auto" upload (1 ∷ 2 ∷ 3 ∷ 4 ∷ 5 ∷ [])
      ([], []) tuned valid

-- After the large file, which has been stored
abbrev after_large : Store
after_large = (("k", 1 ∷ 2 ∷ 3 ∷ 4 ∷ 5 ∷ []) ∷ [], [])

abbrev large : SourceFile
large = record {
  before = record { size = 5; mtime = 7 };
  body = 1 ∷ 2 ∷ 3 ∷ 4 ∷ 5 ∷ [];
  after = some (record { size = 5; mtime = 7 });
}

again_run :
    (publish_object client digest upload files "k" "large.csv" after_large).0
    ≡ ok (record { bytes = 5; sha256 = tally 5 })
unfolding program
again_run = refl

publish_object-IsReport_example :
    IsReport client digest upload large (record { bytes = 5; sha256 = tally 5 })
unfolding string_eq
publish_object-IsReport_example =
    publish_object-IsReport client digest upload files "k" "large.csv" large after_large
      (record { bytes = 5; sha256 = tally 5 }) refl again_run

publish_object-agrees_example :
    (length large.body ≡ length large.body)
    × (hexdigest digest large.body ≡ hexdigest digest large.body)
    × (object_at (publish_object client digest upload files "k" "large.csv" after_large).1 "k"
        ≡ some large.body)
unfolding string_eq lookup
publish_object-agrees_example =
    publish_object-agrees client digest upload object_at client-IsClient digest-IsDigest
      (omega arith) files "k" "large.csv" large large.body after_large
      (record { bytes = 5; sha256 = tally 5 }) refl refl again_run

-- No parts are left of an upload that is over.
abbrev IsClosed : Store → Type 0
IsClosed s = s.1 ≡ []

put_at_parts :
    (key : String) (body : Bytes) (o : Option Bytes) (s : Store) → (put_at key body o s).1.1 ≡ s.1
put_at_parts key body none (objects, parts) = refl
put_at_parts key body (some there) s = refl

-- A store that refuses the parts after the first
abbrev failing : Client Store
failing = record client {
  upload_part = λ want key upload_id n part s.
      if n == 1 then client.upload_part want key upload_id n part s else (err storage_error, s);
}

failing_run :
    upload_multipart failing digest upload "k" (1 ∷ 2 ∷ 3 ∷ 4 ∷ 5 ∷ []) ([], [])
    ≡ (err storage_error, ([], []))
unfolding program
failing_run = refl

failing-IsClosing : IsClosing failing "upload" IsClosed
failing-IsClosing = record {
  reads_keep = record { head_keeps = λ want key s h. h; get_keeps = λ key s h. h };
  abort_closes = λ key s done e. refl;
  complete_closes =
      λ key parts s returned e. put_at_parts key (join_bytes s.1) (lookup key s.0) (s.0, []);
}

upload_multipart-IsClosed_example :
    IsClosed (upload_multipart failing digest upload "k" (1 ∷ 2 ∷ 3 ∷ 4 ∷ 5 ∷ []) ([], [])).1
    ⊎ Leaks failing digest upload "upload" "k" (chunks 5 2 (1 ∷ 2 ∷ 3 ∷ 4 ∷ 5 ∷ [])) ([], [])
upload_multipart-IsClosed_example =
    upload_multipart-IsClosed failing digest upload "upload" "k" IsClosed failing-IsClosing
      (1 ∷ 2 ∷ 3 ∷ 4 ∷ 5 ∷ []) ([], []) refl
