-- ===== src/Tests/Bucket.antt =====
-- A bucket as a dict, and the texts and digests that a publication needs.
use Prim.Native.Char.{char}
use Prim.Native.String.{[], ◌∷◌}
use reporting_platform_local.Common.{
  starts_with, after_prefix, replace, replace_from, chars, ℕ, zero, suc, ◌-◌, Bool, true, false,
  none, some, Option, [], ◌∷◌, String, ◌≡◌, refl, ap, arith, Dict, lookup, insert, lookup-insert,
  Result, ok, err, string_eq, nat_eq, option_eq, text_order, pair_order, nat_order, ℕ_discrete,
  truthy,
}
use reporting_platform_local.Transport.Paths.{TransportError, storage_error}
use reporting_platform_local.Transport.Document.{
  Member, null, Document, members, Instants, timestamp,
}
use reporting_platform_local.Transport.Canonical.{IsLower, IsInstants}
use reporting_platform_local.Transport.RoundTrip.{IsJson}
use reporting_platform_local.Transport.Uploads.{PublishedObject, Storage}
use reporting_platform_local.Transport.Durable.{View, IsStorage}

abbrev pub Bytes : Type 0
Bytes = Dict String Member

abbrev pub Bucket : Type 0
Bucket = Dict String Bytes

-- The content of a file, as its path says
abbrev content : String → Bytes
content path = (path, null) ∷ []

abbrev pub digest : String
digest = "0123456789abcdef0123456789abcdef0123456789abcdef0123456789abcdef"

abbrev object_of : PublishedObject
object_of = record { bytes = 12; sha256 = digest }

-- What is made of the object that a key has
abbrev publish_at :
    String → String → Option Bytes → Bucket → Result TransportError PublishedObject × Bucket
publish_at key path none bucket = (ok object_of, insert key (content path) bucket)
publish_at key path (some body) bucket = (ok object_of, bucket)

abbrev found : Option Bytes → Bool
found none = false
found (some body) = true

abbrev read_at : Option Bytes → Result TransportError Bytes
read_at none = err storage_error
read_at (some body) = ok body

abbrev put_at : String → Bytes → Option Bytes → Bucket → Result TransportError Bool × Bucket
put_at key body none bucket = (ok true, insert key body bucket)
put_at key body (some there) bucket = (ok false, bucket)

abbrev pub storage : Storage Bucket Bytes
storage = record {
  publish_object = λ key path bucket. publish_at key path (lookup key bucket) bucket;
  object_exists = λ key bucket. (ok (found (lookup key bucket)), bucket);
  get_object = λ key bucket. (read_at (lookup key bucket), bucket);
  put_new = λ key body bucket. put_at key body (lookup key bucket) bucket;
}

abbrev pub view : View Bucket Bytes
view = record {
  stored = λ bucket key. lookup key bucket;
  size = λ body. 12;
  sha256 = λ body. digest;
}

insert_keeps :
    (key : String) (new : Bytes) (bucket : Bucket) (j : String) (body : Bytes)
    → lookup key bucket ≡ none
    → lookup j bucket ≡ some body
    → lookup j (insert key new bucket) ≡ some body
insert_keeps key new bucket j body absent h =
    ground (arith, absent, h, lookup-insert j key new bucket)

inserted :
    (key : String) (new : Bytes) (bucket : Bucket) → lookup key (insert key new bucket) ≡ some new
inserted key new bucket = ground (arith, lookup-insert key key new bucket)

publish_at_keeps :
    (key path : String) (o : Option Bytes) (bucket : Bucket) (j : String) (body : Bytes)
    → lookup key bucket ≡ o
    → lookup j bucket ≡ some body
    → lookup j (publish_at key path o bucket).1 ≡ some body
publish_at_keeps key path none bucket j body e h = insert_keeps key (content path) bucket j body e h
publish_at_keeps key path (some there) bucket j body e h = h

put_at_keeps :
    (key : String) (new : Bytes) (o : Option Bytes) (bucket : Bucket) (j : String) (body : Bytes)
    → lookup key bucket ≡ o
    → lookup j bucket ≡ some body
    → lookup j (put_at key new o bucket).1 ≡ some body
put_at_keeps key new none bucket j body e h = insert_keeps key new bucket j body e h
put_at_keeps key new (some there) bucket j body e h = h

publish_at_stores :
    (key path : String) (o : Option Bytes) (bucket : Bucket) (p : PublishedObject)
    → lookup key bucket ≡ o
    → (publish_at key path o bucket).0 ≡ ok p
    → (body : Bytes) × (lookup key (publish_at key path o bucket).1 ≡ some body)
      × (12 ≡ p.bytes)
      × (digest ≡ p.sha256)
publish_at_stores key path none bucket p e h =
    (content path, inserted key (content path) bucket, ground (arith, h), ground (arith, h))
publish_at_stores key path (some there) bucket p e h =
    (there, e, ground (arith, h), ground (arith, h))

read_at_stored : (o : Option Bytes) (body : Bytes) → read_at o ≡ ok body → o ≡ some body
read_at_stored none body h = cc
read_at_stored (some there) body h = ground (arith, h)

put_at_stores :
    (key : String) (body : Bytes) (o : Option Bytes) (bucket : Bucket)
    → (put_at key body o bucket).0 ≡ ok true
    → lookup key (put_at key body o bucket).1 ≡ some body
put_at_stores key body none bucket h = inserted key body bucket
put_at_stores key body (some there) bucket h = absurd (ground (arith, h))

pub storage-IsStorage : IsStorage storage view
storage-IsStorage = record {
  publish_keeps = λ key path bucket j body h.
      publish_at_keeps key path (lookup key bucket) bucket j body refl h;
  exists_keeps = λ key bucket j body h. h;
  get_keeps = λ key bucket j body h. h;
  put_keeps =
      λ key new bucket j body h. put_at_keeps key new (lookup key bucket) bucket j body refl h;
  published = λ key path bucket p h. publish_at_stores key path (lookup key bucket) bucket p refl h;
  read = λ key bucket body h. read_at_stored (lookup key bucket) body h;
  created = λ key body bucket h. put_at_stores key body (lookup key bucket) bucket h;
}

-- Instants as tallies
abbrev tally : ℕ → String
tally zero = "0"
tally (suc n) = char 0x31 tt ∷ tally n

abbrev pub instants : Instants
instants = record { isoformat = tally; fromisoformat = λ s. some (some (chars s - 1)) }

chars-tally : (n : ℕ) → chars (tally n) ≡ suc n
chars-tally zero = refl
chars-tally (suc n) = omega (arith, chars-tally n)

replace_z : (n : ℕ) → replace "Z" "+00:00" (tally n) ≡ tally n
unfolding replace_from starts_with after_prefix nat_eq ℕ_discrete
replace_z zero = refl
replace_z (suc n) = ap (λ s. char 0x31 tt ∷ s) (replace_z n)

replace_offset : (n : ℕ) → replace "+00:00" "Z" (tally n) ≡ tally n
unfolding replace_from starts_with after_prefix nat_eq ℕ_discrete
replace_offset zero = refl
replace_offset (suc n) = ap (λ s. char 0x31 tt ∷ s) (replace_offset n)

truthy-tally : (n : ℕ) → truthy (tally n) ≡ true
truthy-tally zero = refl
truthy-tally (suc n) = refl

pub instants-IsInstants : IsInstants instants
unfolding timestamp
instants-IsInstants = record {
  written = λ n. rw (replace_offset n, truthy-tally n);
  read = λ n. rw (replace_offset n, replace_z n) (ground (arith, chars-tally n));
}

abbrev pub lower : String → String
lower s = s

pub lower-IsLower : IsLower lower
lower-IsLower = record { idem = λ s. refl; hex = λ s h. h }

abbrev pub loads : Bytes → Option Document
loads d = some (members d)

abbrev pub dumps : Dict String Member → Bytes
dumps d = d

pub json : IsJson loads dumps
json = record { read = λ d. refl }
