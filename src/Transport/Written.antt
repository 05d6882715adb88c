-- ===== src/Transport/Written.antt =====
-- The members that are written of a transport, in order of their keys.
use reporting_platform_local.Common.{
  ℕ, Option, none, some, List, [], ◌∷◌, map, lookup, Dict, String, ok, string_eq, nat_eq,
  text_order, ◌≡◌, refl, ap,
}
use reporting_platform_local.Transport.Parse.{FileValue, object, TransportFile}
use reporting_platform_local.Transport.Document.{
  Member, array, Instants, Transport, file_dict, as_dict, sort_members, insert_member, sorted_file,
  sorted_member, unique_object, unique_files, unique_members,
}
use reporting_platform_local.Transport.Reparsed.{sorted_files, IsWritten}

-- A transport with the fields that its version decides
abbrev pub with_version : ℕ → Option String → Option String → Option String → Transport → Transport
with_version version run cob_date source_system t = record t {
  transport_contract_version = version;
  producer_run_id = run;
  cob_date = cob_date;
  source_system = source_system;
}

-- The array of files, as it is written
abbrev written_files : List TransportFile → List FileValue
written_files files = map sorted_file (map (λ f. object (file_dict f)) files)

sorted_files-written_files : (files : List TransportFile) → written_files files ≡ sorted_files files
sorted_files-written_files [] = refl
sorted_files-written_files (f ∷ files) =
    ap (λ vs. object (sort_members (file_dict f)) ∷ vs) (sorted_files-written_files files)

listed :
    (files : List TransportFile)
    → some (array (written_files files)) ≡ some (array (sorted_files files))
listed files = ap (λ vs. some (array vs)) (sorted_files-written_files files)

unique_files-written_files :
    (files : List TransportFile) → unique_files (written_files files) ≡ ok tt
unfolding unique_files sort_members insert_member text_order string_eq unique_object
unique_files-written_files [] = refl
unique_files-written_files (f ∷ files) = unique_files-written_files files

module _ (instants : Instants) where
  abbrev pub written : Transport → Dict String Member
  written t = sort_members (map sorted_member (as_dict instants t))

  pub written_v1-IsWritten :
      (t : Transport) (run : Option String)
      → let u = with_version 1 run none none t in IsWritten instants (written u) u
  unfolding sort_members insert_member text_order string_eq as_dict lookup
  written_v1-IsWritten t none = (refl, refl, refl, refl, refl, listed t.files)
  written_v1-IsWritten t (some run) = (refl, refl, refl, refl, refl, listed t.files)

  pub written_v2-IsWritten :
      (t : Transport) (run cob_date source_system : String)
      → let u = with_version 2 (some run) (some cob_date) (some source_system) t in
        IsWritten instants (written u) u
  unfolding sort_members insert_member text_order string_eq as_dict lookup
  written_v2-IsWritten t run cob_date source_system = (refl, refl, refl, refl, refl, listed t.files)

  pub unique-written_v1 :
      (t : Transport) (run : Option String)
      → let raw = written (with_version 1 run none none t) in
        (unique_members raw ≡ ok tt) × (unique_object [] raw ≡ ok raw)
  unfolding sort_members insert_member text_order string_eq as_dict unique_members unique_object
  unique-written_v1 t none = (rw (unique_files-written_files t.files), refl)
  unique-written_v1 t (some run) = (rw (unique_files-written_files t.files), refl)

  pub unique-written_v2 :
      (t : Transport) (run cob_date source_system : String)
      → let raw = written (with_version 2 (some run) (some cob_date) (some source_system) t) in
        (unique_members raw ≡ ok tt) × (unique_object [] raw ≡ ok raw)
  unfolding sort_members insert_member text_order string_eq as_dict unique_members unique_object
  unique-written_v2 t run cob_date source_system = (rw (unique_files-written_files t.files), refl)
