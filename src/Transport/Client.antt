-- ===== src/Transport/Client.antt =====
-- The object store's client and the digests that reporting_transport/storage.py works with, and what
-- it documents of a body: the pieces that a large file is read in.
use Prim.Native.Char.{code}
use Prim.Native.String.{[], ◌∷◌}
use reporting_platform_local.Common.{
  ℕ, zero, suc, ◌+◌, ◌/◌, ◌%◌, Bool, true, false, not, ◌&&◌, ◌||◌, Option, List, [], ◌∷◌, ◌++◌,
  String, length, take, drop, map, ◌==◌, if◌then◌else◌, nat_eq, string_eq, truthy, text_of,
}
use reporting_platform_local.Transport.Actions.{Action}

abbrev pub Bytes : Type 0
Bytes = List ℕ

-- What `head_object` answers of an object that is there
pub record Head : Type 0 where
  pub content_length : ℕ
  pub checksum : Option String

-- A create-only write: its precondition has failed, or the object is stored, with the checksum that
-- the store has computed, if any.
pub data PutAnswer : Type 0 where
  precondition_failed : PutAnswer
  stored : Option String → PutAnswer

-- What `upload_part` answers, and an entry of the parts that an upload is completed with
pub record Receipt : Type 0 where
  pub etag : String
  pub checksum : Option String

pub record Part : Type 0 where
  pub number : ℕ
  pub etag : String
  pub checksum : Option String

-- The client of a bucket. The first argument says whether checksums are asked for, and a missing
-- object is `none`; the exceptions that are no answers are raised.
pub record Client (S : Type 0) : Type 0 where
  pub head_object : Bool → String → Action S (Option Head)
  pub get_object : String → Action S (Option Bytes)
  pub put_object : Bool → String → Bytes → Action S PutAnswer
  pub create_multipart_upload : Bool → String → Action S String
  pub upload_part : Bool → String → String → ℕ → Bytes → Action S Receipt
  pub complete_multipart_upload : String → String → List Part → Action S PutAnswer
  pub abort_multipart_upload : String → String → Action S (Unit {0})

-- `hashlib.sha256`, `hex`, `bytes.fromhex`, `base64.b64encode`, `str` of a number, and the digits of
-- a pattern's `\d`
pub record Digest : Type 0 where
  pub sha256 : Bytes → Bytes
  pub hex : Bytes → String
  pub fromhex : String → Bytes
  pub b64encode : Bytes → String
  pub decimal : ℕ → String
  pub digit : ℕ → Bool

-- A source file as the process sees it: its size and time before it is read, its bytes, and its size
-- and time afterwards, unless they cannot be read again
pub record Stat : Type 0 where
  pub size : ℕ
  pub mtime : ℕ

pub record SourceFile : Type 0 where
  pub before : Stat
  pub body : Bytes
  pub after : Option Stat

-- `fh.read(part_size)` until it reads nothing
unfoldable pub chunks : ℕ → ℕ → Bytes → List Bytes
chunks zero part_size body = []
chunks (suc fuel) part_size body =
    let rest = chunks fuel part_size (drop part_size body) in
    elim (take part_size body) [ [] ↦ [] | b ∷ bs ↦ (b ∷ bs) ∷ rest ]

abbrev pub join_bytes : List Bytes → Bytes
join_bytes [] = []
join_bytes (part ∷ parts) = part ++ join_bytes parts

-- `-(-size // part_size)`
unfoldable pub ceil_div : ℕ → ℕ → ℕ
ceil_div size part_size = size / part_size + (if size % part_size == 0 then 0 else 1)

module _ (digest : Digest) where
  -- Digits up to the end, or to a newline at the end, of which there is at least one
  unfoldable pub digits_to_end : Bool → String → Bool
  digits_to_end seen [] = seen
  digits_to_end seen (c ∷ s) =
      let rest = digits_to_end true s in
      if digest.digit (code c) then rest else seen && code c == 10 && not (truthy s)

  -- `_is_composite_checksum`: a search for `-\d+$`
  unfoldable pub is_composite : String → Bool
  is_composite [] = false
  is_composite (c ∷ s) = code c == 0x2d && digits_to_end false s || is_composite s

  unfoldable pub hexdigest : Bytes → String
  hexdigest body = digest.hex (digest.sha256 body)

  -- The checksum of an object that has been assembled from parts
  unfoldable pub composite_of : List Bytes → String
  composite_of parts = text_of (
      digest.b64encode (digest.sha256 (join_bytes (map digest.sha256 parts)))
      ∷ "-"
      ∷ digest.decimal (length parts)
      ∷ [])
