-- ===== src/Transport/Segments.antt =====
-- What an accepted path segment cannot do.
use Prim.Native.Char.{code}
use Prim.Native.String.{String, [], ◌∷◌}
use reporting_platform_local.Common.{
  ℕ, true, false, [], ◌∷◌, ◌==◌, ok, string_eq, nat_eq, ◌≡◌, refl, arith,
}
use reporting_platform_local.Transport.Paths.{
  slash, is_unsafe, split_path, is_segment_char, all_segment_chars, validate_segment,
}

not_slash : (c : ℕ) → is_segment_char c ≡ true → c == slash ≡ false
not_slash c h = ground arith

split_path-segment : (s : String) → all_segment_chars s ≡ true → split_path s ≡ s ∷ []
unfolding split_path all_segment_chars
split_path-segment [] h = refl
split_path-segment (c ∷ s) h = ground (arith, split_path-segment s, not_slash (code c))

-- An accepted transport id or source system is returned unchanged and is one segment of a path:
-- it has no slash to be split at, is not empty, and is neither `.` nor `..`.
pub validate_segment_single :
    (value accepted : String)
    → validate_segment value ≡ ok accepted
    → (accepted ≡ value) × (split_path value ≡ value ∷ []) × (is_unsafe value ≡ false)
unfolding validate_segment
validate_segment_single value accepted h =
    (ground arith, split_path-segment value (ground arith), ground arith)
