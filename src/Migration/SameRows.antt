-- ===== src/Migration/SameRows.antt =====
-- The key-set and row-hash strategies together decide that both sides hold the same rows.
use reporting_platform_local.Common.{
  suc, ◌+◌, ◌≤◌, Bool, true, false, not, ◌&&◌, none, List, [], ◌∷◌, ◌≡◌, ◌↔◌, refl, sym, ap, ◌∙◌,
  arith, String, ◌==◌, Eq, contains, contains-filter, filter, length, length-filter, count,
  difference, Option-cases, inl, inr, IsNodup, count_mono, Dict, keys, lookup, contains-keys,
  keys_of_missing, string_eq, option_eq,
}
use reporting_platform_local.Migration.Comparators.{
  Outcome, pass, is_empty, common, compare_key_set, differing, compare_row_hash, worst_outcome,
}

module _ {K : Type 0} ⦃e : Eq K⦄ where
  empty_contains : (xs : List K) → is_empty xs ≡ true → (k : K) → contains xs k ≡ false
  empty_contains [] h k = refl
  empty_contains (x ∷ xs) h k = cc

  empty_of_contains : (xs : List K) → ((k : K) → contains xs k ≡ false) → is_empty xs ≡ true
  empty_of_contains [] h = refl
  empty_of_contains (x ∷ xs) h = ground (arith, h x)

  contains-differing :
      (legacy new : Dict K String) (k : K)
      → contains (differing legacy new) k ≡ (
          (contains (keys legacy) k && contains (keys new) k)
          && not (lookup k legacy == lookup k new))
  contains-differing legacy new k = ground (
    arith,
    contains-filter (λ j. not (lookup j legacy == lookup j new)) (common (keys legacy) (keys new))
        k,
    contains-filter (contains (keys new)) (keys legacy) k,
  )

  absent_key : (d : Dict K String) (k : K) → contains (keys d) k ≡ false → lookup k d ≡ none
  absent_key d k h = elim (Option-cases (lookup k d)) [
    | inl e ↦ e
    | inr (v, e) ↦ absurd (ground (arith, h, contains-keys k v d e))
  ]

  -- The outcome of the two strategies, the worse of the two.
  abbrev pub compare_rows : Dict K String → Dict K String → Outcome
  compare_rows legacy new = worst_outcome (
      (compare_key_set (keys legacy) (keys new)).outcome
      ∷ (compare_row_hash legacy new).outcome
      ∷ [])

  same_lookup :
      (legacy new : Dict K String)
      → compare_rows legacy new ≡ pass
      → (k : K) → lookup k legacy ≡ lookup k new
  unfolding compare_key_set compare_row_hash worst_outcome
  same_lookup legacy new h k =
      let only_legacy = contains-filter (λ x. not (contains (keys new) x)) (keys legacy) k in
      let only_new = contains-filter (λ x. not (contains (keys legacy) x)) (keys new) k in
      ground (
        arith,
        empty_contains (difference (keys legacy) (keys new)) (ground arith) k,
        empty_contains (difference (keys new) (keys legacy)) (ground arith) k,
        empty_contains (differing legacy new) (ground arith) k,
        only_legacy,
        only_new,
        contains-differing legacy new k,
        absent_key legacy k,
        absent_key new k,
      )

  same_keys :
      (legacy new : Dict K String)
      → ((k : K) → lookup k legacy ≡ lookup k new)
      → (k : K) → contains (keys legacy) k ≡ contains (keys new) k
  same_keys legacy new h k = elim (Option-cases (lookup k legacy)) [
    | inl e ↦ ground (arith, h k, e, keys_of_missing k legacy, keys_of_missing k new)
    | inr (v, e) ↦ ground (arith, contains-keys k v legacy e, contains-keys k v new (sym (h k) ∙ e))
  ]

  pass_of_same :
      (legacy new : Dict K String)
      → ((k : K) → lookup k legacy ≡ lookup k new)
      → compare_rows legacy new ≡ pass
  unfolding compare_key_set compare_row_hash worst_outcome
  pass_of_same legacy new h = ground (
    arith,
    empty_of_contains (difference (keys legacy) (keys new)) (λ k. ground (
      arith,
      contains-filter (λ x. not (contains (keys new) x)) (keys legacy) k,
      same_keys legacy new h k,
    )),
    empty_of_contains (difference (keys new) (keys legacy)) (λ k. ground (
      arith,
      contains-filter (λ x. not (contains (keys legacy) x)) (keys new) k,
      same_keys legacy new h k,
    )),
    empty_of_contains (differing legacy new)
        (λ k. ground (arith, contains-differing legacy new k, h k)),
  )

  -- The worse of the key-set and the row-hash outcome is PASS exactly when both sides map every
  -- key to the same hash, or both do not have the key.
  pub compare_rows-pass :
      (legacy new : Dict K String)
      → (compare_rows legacy new ≡ pass) ↔ ((k : K) → lookup k legacy ≡ lookup k new)
  compare_rows-pass legacy new = (same_lookup legacy new, pass_of_same legacy new)

  count_common : (q : K → Bool) (xs : List K) → count q xs + count (λ x. not (q x)) xs ≡ length xs
  count_common q [] = omega arith
  count_common q (x ∷ xs) = ground (arith, count_common q xs)

  filter-IsNodup : (q : K → Bool) (xs : List K) → IsNodup xs → IsNodup (filter q xs)
  filter-IsNodup q [] h = tt
  filter-IsNodup q (x ∷ xs) (h, hs) = ground (arith, filter-IsNodup q xs hs, contains-filter q xs x)

  count_all : (xs : List K) → count (λ x. true) xs ≡ length xs
  count_all [] = refl
  count_all (x ∷ xs) = ap suc (count_all xs)

  common_le : (xs ys : List K) → IsNodup xs → length (common xs ys) ≤ length (common ys xs)
  common_le xs ys h =
      let below =
        count_mono (λ k. true) (common ys xs) (common xs ys) (filter-IsNodup (contains ys) xs h)
          (λ k m.
            ground
              (arith, contains-filter (contains ys) xs k, contains-filter (contains xs) ys k)) in
      omega (arith, below, count_all (common xs ys), count_all (common ys xs))

  -- The summary of the key-set comparison accounts for every key of either side, once.
  pub compare_key_set_counts :
      (legacy new : List K)
      → IsNodup legacy
      → IsNodup new
      → ((compare_key_set legacy new).summary.matched
            + (compare_key_set legacy new).summary.legacy_only
          ≡ length legacy)
        × ((compare_key_set legacy new).summary.matched
              + (compare_key_set legacy new).summary.new_only
            ≡ length new)
  unfolding compare_key_set
  compare_key_set_counts legacy new h k = (
    omega (
      arith,
      length-filter (contains new) legacy,
      length-filter (λ x. not (contains new x)) legacy,
      count_common (contains new) legacy,
    ),
    omega (
      arith,
      common_le legacy new h,
      common_le new legacy k,
      length-filter (contains legacy) new,
      length-filter (λ x. not (contains legacy x)) new,
      count_common (contains legacy) new,
    ),
  )
