-- ===== src/Retention/LandingNames.antt =====
-- `_cob_date` of reporting_platform/retention/landing.py: which COB date an object of the landing
-- prefix is judged by, with `is_metadata_key` and `delivery_of_metadata` of
-- reporting_platform/ingest/conform.py.
use Prim.Native.Char.{code}
use Prim.Native.String.{String, [], ◌∷◌}
use reporting_platform_local.Common.{
  ℕ, zero, suc, ◌-◌, Bool, true, false, not, ◌&&◌, Option, none, some, List, [], ◌∷◌, sort, ◌==◌,
  if◌then◌else◌, Result, ok, ◌>>=◌, Date, date_order, string_eq, nat_eq, text_order, ends_with,
  has_char, or_empty, chars,
}
use reporting_platform_local.Retention.Windows.{Fault, unreadable_date}
use reporting_platform_local.Filenames.Render.{Python, parse_filename}
use reporting_platform_local.Filenames.Claims.{Matcher, FeedNames, delivery, claims_control_file}

abbrev pub is_empty : List String → Bool
is_empty [] = true
is_empty (x ∷ xs) = false

pub record Feed : Type 0 where
  pub name : String
  pub landing_prefix : String
  pub retention_class : String
  pub names : FeedNames

abbrev pub metadata_suffix : String
metadata_suffix = ".meta.json"

unfoldable pub is_metadata_key : String → Bool
is_metadata_key key = ends_with metadata_suffix key

-- `landing_filename + METADATA_SUFFIX`
unfoldable pub metadata_filename : String → String
metadata_filename [] = metadata_suffix
metadata_filename (c ∷ s) = c ∷ metadata_filename s

-- `s[:n]`
unfoldable pub take_chars : ℕ → String → String
take_chars zero s = []
take_chars (suc n) [] = []
take_chars (suc n) (c ∷ s) = c ∷ take_chars n s

-- `filename[:-len(METADATA_SUFFIX)]`
unfoldable pub delivery_of_metadata : String → String
delivery_of_metadata filename = take_chars (chars filename - chars metadata_suffix) filename

abbrev pub delivery_name : String → String
delivery_name filename =
    if is_metadata_key filename then delivery_of_metadata filename else filename

-- `key.rsplit("/", 1)[-1]`
unfoldable pub base_name : String → String
base_name [] = []
base_name (c ∷ s) =
    let rest = base_name s in if has_char 0x2f s then rest else if code c == 0x2f then s else c ∷ s

-- `candidate[:candidate.rindex(".")] if "." in candidate else candidate`
unfoldable pub stem_of : String → String
stem_of [] = []
stem_of (c ∷ s) =
    let rest = stem_of s in
    if has_char 0x2e s then c ∷ rest else if code c == 0x2e then [] else c ∷ s

-- `python` has `strptime`, `re` the matching of patterns, and `gates pattern stem filename` is
-- `re.fullmatch(pattern.format(stem=re.escape(stem)), filename)`.
module _ (python : Python) (re : Matcher) (gates : String → String → String → Bool) where
  -- The date of the delivery that a control file gates
  unfoldable pub gated_date : Feed → String → List String → Result Fault (Option Date)
  gated_date feed filename [] = ok none
  gated_date feed filename (candidate ∷ candidates) =
      let rest = gated_date feed filename candidates in
      parse_filename python unreadable_date feed.names.filename_pattern candidate >>= λ dated.
      elim dated [
        | none ↦ rest
        | some (bd, version) ↦
            if gates (or_empty feed.names.delivery_control) (stem_of candidate) filename
            then ok (some bd)
            else rest
      ]

  -- A name that is no delivery's: a control file, or nothing that is recognised
  unfoldable pub control_date : Feed → String → List String → Result Fault (Option Date)
  control_date feed filename siblings =
      if not (is_empty siblings) && claims_control_file re feed.names filename delivery
      then gated_date feed filename (sort siblings)
      else ok none

  -- `_cob_date`, of a delivery's name or any other, once a metadata object has been named after
  -- its delivery
  unfoldable pub date_named : Feed → String → List String → Result Fault (Option Date)
  date_named feed name siblings =
      parse_filename python unreadable_date feed.names.filename_pattern name >>= λ parsed.
      elim parsed [ some (bd, version) ↦ ok (some bd) | none ↦ control_date feed name siblings ]

  unfoldable pub cob_date_of : Feed → String → List String → Result Fault (Option Date)
  cob_date_of feed filename siblings = date_named feed (delivery_name filename) siblings
