-- ===== src/Transport/Canonical.antt =====
-- What a transport that a marker has been accepted for is made of.
use reporting_platform_local.Common.{
  ℕ, true, not, some, List, [], ◌∷◌, map, contains, lookup, Dict, String, ok, ◌>>◌, refuse_if,
  string_eq, truthy, replace, keys, all, text_order, ◌≡◌, refl, subst, arith, first_step,
  Result-cases, inl, inr, pos,
}
use reporting_platform_local.Transport.Paths.{contract_error}
use reporting_platform_local.Transport.Parse.{
  Json, integer, text, FileValue, object, not_an_object, TransportFile, file_fields, text_field,
  is_hex, parse_object, parse_each,
}
use reporting_platform_local.Transport.Accepted.{parse_object-IsDeclared}
use reporting_platform_local.Transport.Marker.{
  text_member, is_trimmed, required_text, optional_text, parse_timestamp,
}
use reporting_platform_local.Transport.Document.{
  Member, scalar, Instants, timestamp, file_dict, sort_members, insert_member,
}

-- `str.lower`, on digests
pub record IsLower (lower : String → String) : Type 0 where
  pub idem : (s : String) → lower (lower s) ≡ lower s
  pub hex : (s : String) → is_hex 64 s ≡ true → is_hex 64 (lower s) ≡ true

-- Instants that are read back from their own texts, with `Z` for the offset
pub record IsInstants (instants : Instants) : Type 0 where
  pub written : (n : ℕ) → truthy (timestamp instants n) ≡ true
  pub read :
      (n : ℕ) → instants.fromisoformat (replace "Z" "+00:00" (timestamp instants n)) ≡ some (some n)

pub required_text-IsTrimmed :
    (field : String) (raw : Dict String Member) (value : String)
    → required_text field raw ≡ ok value
    → is_trimmed value ≡ true
unfolding required_text
required_text-IsTrimmed field raw value h =
    let (found, e, last) =
      first_step (text_member field raw)
        (λ v. refuse_if (not (is_trimmed v)) contract_error >> ok v) h in
    ground (arith, last)

pub required_text_again :
    (field : String) (raw : Dict String Member) (value : String)
    → lookup field raw ≡ some (scalar (text value))
    → is_trimmed value ≡ true
    → required_text field raw ≡ ok value
unfolding required_text
required_text_again field raw value found h = ground (arith, found, h)

pub optional_text-IsTrimmed :
    (field : String) (raw : Dict String Member) (value : String)
    → optional_text field raw ≡ ok (some value)
    → is_trimmed value ≡ true
unfolding optional_text
optional_text-IsTrimmed field raw value h =
    required_text-IsTrimmed field raw value (ground (arith, h))

module _ (instants : Instants) (good : IsInstants instants) where
  pub parse_timestamp_again :
      (field : String) (raw : Dict String Member) (n : ℕ)
      → lookup field raw ≡ some (scalar (text (timestamp instants n)))
      → parse_timestamp instants field raw ≡ ok n
  unfolding parse_timestamp
  parse_timestamp_again field raw n found = ground (arith, found, good.written n, good.read n)

module _ (lower : String → String) (good : IsLower lower) where
  -- The digest of a file that has been accepted
  parse_object-IsHex :
      (folder : String) (raw : Dict String Json) (f : TransportFile)
      → parse_object lower folder raw ≡ ok f
      → (is_hex 64 f.sha256 ≡ true) × (lower f.sha256 ≡ f.sha256)
  unfolding parse_object
  parse_object-IsHex folder raw f h = elim (Result-cases (text_field "sha256" raw)) [
    | inr (fault, e) ↦ absurd (ground (arith, h, e))
    | inl (digest, e) ↦
        let same : lower digest ≡ f.sha256 = ground (arith, h, e) in
        let is_digest : is_hex 64 digest ≡ true = ground (arith, h, e) in
        (
          subst (λ s. is_hex 64 s ≡ true) same (good.hex digest is_digest),
          subst (λ s. lower s ≡ s) same (good.idem digest),
        )
  ]

  -- A file that has been accepted is accepted again, from what is written of it.
  parse_object_again :
      (folder : String) (raw again : Dict String Json) (f : TransportFile)
      → parse_object lower folder raw ≡ ok f
      → all (contains (keys again)) file_fields ≡ true
      → all (contains file_fields) (keys again) ≡ true
      → lookup "role" again ≡ some (text f.role)
      → lookup "original_filename" again ≡ some (text f.original_filename)
      → lookup "object_key" again ≡ some (text f.object_key)
      → lookup "bytes" again ≡ some (integer (pos f.bytes))
      → lookup "sha256" again ≡ some (text f.sha256)
      → parse_object lower folder again ≡ ok f
  unfolding parse_object
  parse_object_again folder raw again f h required known role name key size digest =
      let (is_role, is_name, is_key, no_marker) = parse_object-IsDeclared lower folder raw f h in
      let (is_digest, is_lower) = parse_object-IsHex folder raw f h in
      ground (
        arith, required, known, role, name, key, size, digest, is_role, is_name, is_key, no_marker,
        is_digest, is_lower,
      )

  pub parse_each_again :
      (folder : String) (values : List FileValue) (files : List TransportFile)
      → parse_each lower folder values ≡ ok files
      → parse_each lower folder (map (λ f. object (sort_members (file_dict f))) files) ≡ ok files
  unfolding parse_each sort_members insert_member text_order string_eq lookup
  parse_each_again folder [] [] h = refl
  parse_each_again folder [] (f ∷ files) h = cc
  parse_each_again folder (not_an_object ∷ values) files h = cc
  parse_each_again folder (object raw ∷ values) [] h = absurd (ground (arith, h))
  parse_each_again folder (object raw ∷ values) (f ∷ files) h =
      let here : parse_object lower folder raw ≡ ok f = ground (arith, h) in
      let there : parse_each lower folder values ≡ ok files = ground (arith, h) in
      let again =
        parse_object_again folder raw (sort_members (file_dict f)) f here refl refl refl refl refl
          refl refl in
      rw (again, parse_each_again folder values files there)
