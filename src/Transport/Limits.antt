-- ===== src/Transport/Limits.antt =====
-- The limits of the object store that reporting_transport/storage.py observes.
use reporting_platform_local.Common.{
  ℕ, ◌≤◌, true, false, List, length, All, String, ltb, nat_eq, string_eq, ok, ℤ, pos, negsuc, ◌≡◌,
  arith, ◌⊎◌, inl, inr, Bool-cases,
}
use reporting_platform_local.Transport.Client.{Bytes, chunks, join_bytes, ceil_div}
use reporting_platform_local.Transport.Chunked.{
  join_bytes-chunks, chunks-length_le, length-chunks_le,
}
use reporting_platform_local.Transport.Tuning.{
  UploadTuning, upload_tuning, max_part_size, max_part_count, max_single_put_size, max_object_size,
}
use reporting_platform_local.Transport.Uploading.{validate_size}

-- What `__post_init__` ensures of the numbers
pub upload_tuning-bounds :
    (threshold part_size concurrency : ℤ) (mode : String) (upload : UploadTuning)
    → upload_tuning threshold part_size concurrency mode ≡ ok upload
    → (1 ≤ upload.multipart_part_size)
      × (upload.multipart_part_size ≤ max_part_size)
      × (upload.multipart_threshold ≤ max_single_put_size)
unfolding upload_tuning
upload_tuning-bounds (pos t) (pos p) (pos c) mode upload h = ground (arith, h)
upload_tuning-bounds (negsuc t) (pos p) (pos c) mode upload h = absurd (ground (arith, h))
upload_tuning-bounds (pos t) (pos p) (negsuc c) mode upload h = absurd (ground (arith, h))
upload_tuning-bounds (negsuc t) (pos p) (negsuc c) mode upload h = absurd (ground (arith, h))
upload_tuning-bounds t (negsuc p) c mode upload h = absurd (ground (arith, h))

accepted_size :
    {S : Type 0} (upload : UploadTuning) (size : ℕ) (s : S)
    → (validate_size upload size s).0 ≡ ok tt
    → (size ≤ max_object_size)
      × (upload.multipart_threshold ≤ size
          → ceil_div size upload.multipart_part_size ≤ max_part_count)
unfolding validate_size
accepted_size upload size s h = (ground (arith, h), λ big. ground (arith, h, big))

-- The parts of a body, within the limits
abbrev pub IsCut : Bytes → List Bytes → Type 0
IsCut body parts =
    (join_bytes parts ≡ body)
    × (length parts ≤ max_part_count)
    × All (λ part. length part ≤ max_part_size) parts

-- A tuning that is accepted keeps an upload whose size has been validated within the store's limits: a
-- body below the threshold, which one request sends, has at most 5 GiB, and otherwise the body is cut
-- in at most 10,000 parts, of at most 5 GiB each, which join to the body.
pub upload-limits :
    {S : Type 0} (threshold part_size concurrency : ℤ) (mode : String) (upload : UploadTuning)
    (body : Bytes) (s : S)
    → upload_tuning threshold part_size concurrency mode ≡ ok upload
    → (validate_size upload (length body) s).0 ≡ ok tt
    → ((ltb (length body) upload.multipart_threshold ≡ true) × (length body ≤ max_single_put_size))
      ⊎ ((ltb (length body) upload.multipart_threshold ≡ false)
          × IsCut body (chunks (length body) upload.multipart_part_size body))
upload-limits threshold part_size concurrency mode upload body s tuned valid =
    let (positive, part, single) =
      upload_tuning-bounds threshold part_size concurrency mode upload tuned in
    let (_, few) = accepted_size upload (length body) s valid in
    let n = upload.multipart_part_size in
    elim (Bool-cases (ltb (length body) upload.multipart_threshold)) [
      | inl small ↦ inl (small, ground (arith, small, single))
      | inr big ↦ inr (
        big,
        (
          join_bytes-chunks (length body) n body positive (omega arith),
          omega (arith, length-chunks_le (length body) n body positive, few (ground (arith, big))),
          chunks-length_le (length body) n max_part_size body part,
        ),
      )
    ]
