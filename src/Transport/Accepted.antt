-- ===== src/Transport/Accepted.antt =====
-- What a list of files has been accepted for.
use Prim.Native.String.{String}
use reporting_platform_local.Common.{
  ends_with, truthy, strip, has_char, true, false, ◌||◌, Option, none, some, List, [], ◌∷◌, any,
  contains, map, Dict, ◌==◌, ok, ◌>>=◌, string_eq, text_of, ◌≡◌, ◌≢◌, refl, subst, arith, All,
  IsNodup, first_step, inl, inr, Result-cases,
}
use reporting_platform_local.Transport.Paths.{slash, backslash}
use reporting_platform_local.Transport.Parse.{
  Json, FileValue, object, not_an_object, TransportFile, validate_filename, parse_object,
  parse_each, refuse_duplicates, parse_files,
}

abbrev pub object_keys : List TransportFile → List String
object_keys files = map (λ f. f.object_key) files

abbrev pub filenames : List TransportFile → List String
filenames files = map (λ f. f.original_filename) files

pub never_again :
    (k : String) (seen xs : List String)
    → All (λ x. contains (k ∷ seen) x ≡ false) xs
    → (contains xs k ≡ false) × All (λ x. contains seen x ≡ false) xs
never_again k seen [] h = (refl, tt)
never_again k seen (x ∷ xs) (h, hs) =
    let (fresh, later) = never_again k seen xs hs in (ground arith, (ground arith, later))

-- The keys and names of an accepted list are new, each in turn.
refuse_duplicates-IsNodup :
    (seen_keys seen_names : List String) (files : List TransportFile)
    → refuse_duplicates seen_keys seen_names files ≡ ok tt
    → (All (λ k. contains seen_keys k ≡ false) (object_keys files) × IsNodup (object_keys files))
      × (All (λ n. contains seen_names n ≡ false) (filenames files) × IsNodup (filenames files))
unfolding refuse_duplicates
refuse_duplicates-IsNodup seen_keys seen_names [] h = ((tt, tt), (tt, tt))
refuse_duplicates-IsNodup seen_keys seen_names (file ∷ files) h =
    let ((new_keys, keys_apart), (new_names, names_apart)) =
      refuse_duplicates-IsNodup (file.object_key ∷ seen_keys) (file.original_filename ∷ seen_names)
        files (ground arith) in
    let (key, other_keys) = never_again file.object_key seen_keys (object_keys files) new_keys in
    let (name, other_names) =
      never_again file.original_filename seen_names (filenames files) new_names in
    (
      ((ground arith, other_keys), (key, keys_apart)),
      ((ground arith, other_names), (name, names_apart)),
    )

-- What `_parse_file` has made sure of
abbrev pub IsDeclared : String → TransportFile → Type 0
IsDeclared expected_prefix f =
    (f.role == "data" || f.role == "control" ≡ true)
    × (validate_filename f.original_filename ≡ ok tt)
    × (f.object_key ≡ text_of (expected_prefix ∷ f.original_filename ∷ []))
    × (ends_with "/_COMPLETE.json" f.object_key ≡ false)

-- A name that cannot leave the transport's prefix or stand for its marker
abbrev pub IsSafe : String → Type 0
IsSafe name =
    (name ≢ "")
    × (name ≢ ".")
    × (name ≢ "..")
    × (name ≢ "_COMPLETE.json")
    × (strip name ≡ name)
    × (has_char slash name ≡ false)
    × (has_char backslash name ≡ false)
    × (has_char 0 name ≡ false)

not_empty : {name : String} → name ≡ "" → truthy name ≢ true
not_empty e some_text =
    let none : truthy "" ≡ true = subst (λ s. truthy s ≡ true) e some_text in absurd (cc)

validate_filename-IsSafe : (name : String) → validate_filename name ≡ ok tt → IsSafe name
unfolding validate_filename
validate_filename-IsSafe name h = (
  λ e. not_empty e (ground (arith, h)),
  ground (arith, h),
  ground (arith, h),
  ground (arith, h),
  ground (arith, h),
  ground (arith, h),
  ground (arith, h),
  ground (arith, h),
)

IsDeclared-IsSafe :
    (expected_prefix : String) (files : List TransportFile)
    → All (IsDeclared expected_prefix) files
    → All (λ f. IsSafe f.original_filename) files
IsDeclared-IsSafe expected_prefix [] h = tt
IsDeclared-IsSafe expected_prefix (f ∷ files) ((_, named, _, _), later) = (
  validate_filename-IsSafe f.original_filename named,
  IsDeclared-IsSafe expected_prefix files later,
)

module _ (lower : String → String) where
  pub parse_object-IsDeclared :
      (expected_prefix : String) (raw : Dict String Json) (f : TransportFile)
      → parse_object lower expected_prefix raw ≡ ok f
      → IsDeclared expected_prefix f
  unfolding parse_object
  parse_object-IsDeclared expected_prefix raw f h =
      (ground arith, ground arith, ground arith, ground arith)

  parse_each-IsDeclared :
      (expected_prefix : String) (values : List FileValue) (files : List TransportFile)
      → parse_each lower expected_prefix values ≡ ok files
      → All (IsDeclared expected_prefix) files
  unfolding parse_each
  parse_each-IsDeclared expected_prefix [] [] h = tt
  parse_each-IsDeclared expected_prefix [] (f ∷ files) h = cc
  parse_each-IsDeclared expected_prefix (not_an_object ∷ values) files h = cc
  parse_each-IsDeclared expected_prefix (object raw ∷ values) files h =
      let (file, here, h) =
        first_step (parse_object lower expected_prefix raw)
          (λ file. parse_each lower expected_prefix values >>= λ files. ok (file ∷ files)) h in
      let (more, there, h) =
        first_step (parse_each lower expected_prefix values) (λ files. ok (file ∷ files)) h in
      let same : file ∷ more ≡ files = ground arith in
      subst (λ fs. All (IsDeclared expected_prefix) fs) same
        (
          parse_object-IsDeclared expected_prefix raw file here,
          parse_each-IsDeclared expected_prefix values more there,
        )

  -- A list of files that is accepted is the evidence that its marker claims: every file is data or
  -- control, has a safe name, which is not the marker's, and is stored unchanged under the
  -- transport's own prefix; a safe name is not empty, "." or "..", has no slash, backslash or null
  -- character, and no white space at its ends; no two files have one key or one name; and some file is data.
  pub parse_files_accepts :
      (expected_prefix : String) (values : Option (List FileValue)) (files : List TransportFile)
      → parse_files lower expected_prefix values ≡ ok files
      → All (IsDeclared expected_prefix) files
        × All (λ f. IsSafe f.original_filename) files
        × IsNodup (object_keys files)
        × IsNodup (filenames files)
        × (any (λ f. f.role == "data") files ≡ true)
  unfolding parse_files
  parse_files_accepts expected_prefix none files h = cc
  parse_files_accepts expected_prefix (some values) files h =
      elim (Result-cases (parse_each lower expected_prefix values)) [
        | inr (fault, e) ↦ absurd (ground arith)
        | inl (parsed, e) ↦
            let same : parsed ≡ files = ground (arith, e) in
            let new : refuse_duplicates [] [] files ≡ ok tt = ground (arith, e) in
            let ((_, keys_apart), (_, names_apart)) = refuse_duplicates-IsNodup [] [] files new in
            let declared = parse_each-IsDeclared expected_prefix values files (rw same at e) in
            (
              declared,
              IsDeclared-IsSafe expected_prefix files declared,
              keys_apart,
              names_apart,
              ground (arith, e),
            )
      ]
