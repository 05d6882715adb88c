-- ===== src/Transport/LocalFiles.antt =====
-- `_ordered_local_files` and `_require_token` of reporting_transport/publisher.py. A source is a
-- value that `source_reader` takes; its `name` and `is_file` are parameters.
use reporting_platform_local.Common.{
  ℕ, Bool, true, false, not, ◌&&◌, ◌||◌, List, [], ◌∷◌, any, contains, String, ◌==◌, if◌then◌else◌,
  less, Result, ok, ◌>>=◌, ◌>>◌, refuse_if, string_eq, nat_eq, truthy, pair_order, nat_order,
  text_order,
}
use reporting_platform_local.Transport.Paths.{TransportError, contract_error, all_segment_chars}

-- `_TOKEN.fullmatch`, for which `.` and `..` are tokens
unfoldable pub require_token : String → Result TransportError String
require_token value =
    refuse_if (not (truthy value && all_segment_chars value)) contract_error >> ok value

pub record LocalFile : Type 0 where
  pub role : String
  pub path : String
  pub name : String

-- The key that the list is sorted by
abbrev pub sort_key : LocalFile → ℕ × String
sort_key f = (if f.role == "data" then 0 else 1, f.name)

unfoldable pub insert_file : LocalFile → List LocalFile → List LocalFile
insert_file f [] = f ∷ []
insert_file f (g ∷ gs) =
    let rest = insert_file f gs in if less (sort_key g) (sort_key f) then g ∷ rest else f ∷ g ∷ gs

unfoldable pub sort_files : List LocalFile → List LocalFile
sort_files [] = []
sort_files (f ∷ fs) = insert_file f (sort_files fs)

abbrev pub has_files : List (String × String) → Bool
has_files [] = false
has_files (f ∷ fs) = true

module _ (name_of : String → String) (is_file : String → Bool) where
  -- The loop, with the names that have been seen
  unfoldable pub read_files :
      List String → List (String × String) → Result TransportError (List LocalFile)
  read_files names [] = ok []
  read_files names ((role, path) ∷ files) =
      let rest = read_files (name_of path ∷ names) files in
      refuse_if (not (role == "data" || role == "control")) contract_error
      >> refuse_if (not (is_file path)) contract_error
      >> refuse_if (contains names (name_of path)) contract_error
      >> (rest >>= λ local. ok (record { role = role; path = path; name = name_of path } ∷ local))

  unfoldable pub ordered_local_files :
      List (String × String) → Result TransportError (List LocalFile)
  ordered_local_files files = do
    refuse_if (not (has_files files)) contract_error
    local ← read_files [] files
    refuse_if (not (any (λ f. f.role == "data") local)) contract_error
    ok (sort_files local)
