-- ===== src/Transport/Ordering.antt =====
-- The order in which a publisher uploads its files.
use reporting_platform_local.Common.{
  ℕ, Bool, true, false, List, [], ◌∷◌, contains, map, String, ◌==◌, sort, insert_sorted, ok,
  string_eq, nat_eq, pair_eq, pair_order, nat_order, text_order, All, IsNodup, IsAscending,
  sort-IsAscending, ◌≡◌, refl, sym, ap, ◌∙◌, subst, arith, Result-cases, inl, inr,
}
use reporting_platform_local.Transport.Accepted.{never_again}
use reporting_platform_local.Transport.LocalFiles.{
  LocalFile, sort_key, insert_file, sort_files, read_files, ordered_local_files,
}

abbrev pub sort_keys : List LocalFile → List (ℕ × String)
sort_keys fs = map sort_key fs

abbrev pub local_names : List LocalFile → List String
local_names fs = map (λ f. f.name) fs

sort_keys-insert_file :
    (f : LocalFile) (gs : List LocalFile)
    → sort_keys (insert_file f gs) ≡ insert_sorted (sort_key f) (sort_keys gs)
unfolding insert_file
sort_keys-insert_file f [] = refl
sort_keys-insert_file f (g ∷ gs) = ground (arith, sort_keys-insert_file f gs)

sort_keys-sort_files : (fs : List LocalFile) → sort_keys (sort_files fs) ≡ sort (sort_keys fs)
unfolding sort_files
sort_keys-sort_files [] = refl
sort_keys-sort_files (f ∷ fs) =
    sort_keys-insert_file f (sort_files fs)
    ∙ ap (insert_sorted (sort_key f)) (sort_keys-sort_files fs)

same_name : (f g : LocalFile) → (sort_key f == sort_key g) ≡ true → (f.name == g.name) ≡ true
same_name f g h = ground arith

new_key :
    (f : LocalFile) (fs : List LocalFile)
    → contains (local_names fs) f.name ≡ false
    → contains (sort_keys fs) (sort_key f) ≡ false
new_key f [] h = refl
new_key f (g ∷ gs) h = ground (arith, new_key f gs, same_name f g)

sort_keys-IsNodup : (fs : List LocalFile) → IsNodup (local_names fs) → IsNodup (sort_keys fs)
sort_keys-IsNodup [] h = tt
sort_keys-IsNodup (f ∷ fs) (h, hs) = (new_key f fs h, sort_keys-IsNodup fs hs)

module _ (name_of : String → String) (is_file : String → Bool) where
  read_files-IsNodup :
      (names : List String) (files : List (String × String)) (local : List LocalFile)
      → read_files name_of is_file names files ≡ ok local
      → All (λ n. contains names n ≡ false) (local_names local) × IsNodup (local_names local)
  unfolding read_files
  read_files-IsNodup names [] [] h = (tt, tt)
  read_files-IsNodup names [] (f ∷ fs) h = cc
  read_files-IsNodup names ((role, path) ∷ files) local h =
      elim (Result-cases (read_files name_of is_file (name_of path ∷ names) files)) [
        | inr (fault, e) ↦ absurd (ground arith)
        | inl (more, e) ↦
            let (apart, distinct) = read_files-IsNodup (name_of path ∷ names) files more e in
            let (new, others) = never_again (name_of path) names (local_names more) apart in
            let first : contains names (name_of path) ≡ false = ground arith in
            let same : record { role = role; path = path; name = name_of path } ∷ more ≡ local =
              ground (arith, e) in
            subst
              (λ fs.
                All (λ n. contains names n ≡ false) (local_names fs) × IsNodup (local_names fs))
              same ((first, others), (new, distinct))
      ]

  -- The files that a publisher accepts are in strictly ascending order, whatever the order of the
  -- arguments: the data files before the control files, each kind by name, with no name twice
  -- within a kind.
  pub ordered_local_files-IsAscending :
      (files : List (String × String)) (local : List LocalFile)
      → ordered_local_files name_of is_file files ≡ ok local
      → IsAscending (sort_keys local)
  unfolding ordered_local_files
  ordered_local_files-IsAscending files local h =
      elim (Result-cases (read_files name_of is_file [] files)) [
        | inr (fault, e) ↦ absurd (ground arith)
        | inl (read, e) ↦
            let (_, distinct) = read_files-IsNodup [] files read e in
            let same : sort_files read ≡ local = ground (arith, e) in
            subst (λ fs. IsAscending (sort_keys fs)) same
              (subst (λ ks. IsAscending ks) (sym (sort_keys-sort_files read))
                (sort-IsAscending (sort_keys read) (sort_keys-IsNodup read distinct)))
      ]
