-- ===== src/Retention/Metadata.antt =====
-- How a metadata object in the landing prefix is dated.
use Prim.Native.String.{String, [], ◌∷◌}
use reporting_platform_local.Common.{
  ◌-◌, ◌+◌, Bool, true, false, List, string_eq, ends_with, chars, ◌≡◌, refl, ap, arith,
}
use reporting_platform_local.Filenames.Render.{Python}
use reporting_platform_local.Filenames.Claims.{Matcher}
use reporting_platform_local.Retention.LandingNames.{
  Feed, cob_date_of, metadata_suffix, is_metadata_key, take_chars, delivery_of_metadata,
  metadata_filename, delivery_name, date_named,
}

chars-metadata_filename :
    (s : String) → chars (metadata_filename s) ≡ chars s + chars metadata_suffix
unfolding metadata_filename
chars-metadata_filename [] = refl
chars-metadata_filename (c ∷ s) = omega (arith, chars-metadata_filename s)

take_chars-metadata_filename : (s : String) → take_chars (chars s) (metadata_filename s) ≡ s
unfolding take_chars metadata_filename
take_chars-metadata_filename [] = refl
take_chars-metadata_filename (c ∷ s) = ap (λ t. c ∷ t) (take_chars-metadata_filename s)

-- The metadata of a delivery is recognised, and names the delivery.
delivery_of_metadata-metadata_filename :
    (s : String) → delivery_of_metadata (metadata_filename s) ≡ s
unfolding delivery_of_metadata
delivery_of_metadata-metadata_filename s =
    let same : chars (metadata_filename s) - chars metadata_suffix ≡ chars s =
      omega (arith, chars-metadata_filename s) in
    rw (same, take_chars-metadata_filename s)

is_metadata_key-metadata_filename : (s : String) → is_metadata_key (metadata_filename s) ≡ true
unfolding is_metadata_key metadata_filename ends_with
is_metadata_key-metadata_filename [] = ground arith
is_metadata_key-metadata_filename (c ∷ s) = ground (arith, is_metadata_key-metadata_filename s)

same_delivery :
    (s : String) → is_metadata_key s ≡ false → delivery_name (metadata_filename s) ≡ delivery_name s
same_delivery s h =
    ground (arith, h, is_metadata_key-metadata_filename s, delivery_of_metadata-metadata_filename s)

module _ (python : Python) (re : Matcher) (gates : String → String → String → Bool) where
  -- A metadata object is dated exactly as the delivery it belongs to, or raises as it does, so the
  -- two leave the evidence together: for each delivery whose own name is not a metadata name.
  pub cob_date_of-metadata_filename :
      (feed : Feed) (filename : String) (siblings : List String)
      → is_metadata_key filename ≡ false
      → cob_date_of python re gates feed (metadata_filename filename) siblings
        ≡ cob_date_of python re gates feed filename siblings
  unfolding cob_date_of
  cob_date_of-metadata_filename feed filename siblings h =
      ap (λ name. date_named python re gates feed name siblings) (same_delivery filename h)
