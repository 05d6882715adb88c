-- ===== src/Common/Dicts.antt =====
-- Dicts in insertion order, as association lists with one entry for each key.
use mathlib.Core.Path.{◌≡◌, refl}
use mathlib.Core.Bool.{true, false, ◌||◌}
use mathlib.Core.Option.{Option, none, some}
use mathlib.Core.List.{List, [], ◌∷◌}
use native.Mathlib.Omega.{arith}
use reporting_platform_local.Common.Equality.{Eq, ◌==◌, contains, if◌then◌else◌}

abbrev pub Dict : Type 0 → Type 0 → Type 0
Dict K V = List (K × V)

module _ {K V : Type 0} where
  abbrev pub keys : Dict K V → List K
  keys [] = []
  keys ((k, v) ∷ d) = k ∷ keys d

  abbrev pub values : Dict K V → List V
  values [] = []
  values ((k, v) ∷ d) = v ∷ values d

module _ {K V : Type 0} ⦃e : Eq K⦄ where
  -- `d.get(k)`
  unfoldable pub lookup : K → Dict K V → Option V
  lookup k [] = none
  lookup k ((j, v) ∷ d) = if k == j then some v else lookup k d

  -- `d[k] = v`
  unfoldable pub insert : K → V → Dict K V → Dict K V
  insert k v [] = (k, v) ∷ []
  insert k v ((j, w) ∷ d) = if k == j then (k, v) ∷ d else (j, w) ∷ insert k v d

  -- `del d[k]`
  unfoldable pub erase : K → Dict K V → Dict K V
  erase k [] = []
  erase k ((j, w) ∷ d) = let rest = erase k d in if k == j then rest else (j, w) ∷ rest

  -- one entry for each key
  abbrev pub IsDict : Dict K V → Type 0
  IsDict [] = Unit
  IsDict ((k, _) ∷ d) = (lookup k d ≡ none) × IsDict d

  pub lookup-insert :
      (j k : K) (v : V) (d : Dict K V)
      → lookup j (insert k v d) ≡ (if j == k then some v else lookup j d)
  unfolding insert lookup
  lookup-insert j k v [] = refl
  lookup-insert j k v ((i, w) ∷ d) = ground (arith, lookup-insert j k v d)

  pub lookup-erase :
      (j k : K) (d : Dict K V) → lookup j (erase k d) ≡ (if j == k then none else lookup j d)
  unfolding erase lookup
  lookup-erase j k [] = ground arith
  lookup-erase j k ((i, w) ∷ d) = ground (arith, lookup-erase j k d)

  pub insert-IsDict : (k : K) (v : V) (d : Dict K V) → IsDict d → IsDict (insert k v d)
  unfolding insert lookup
  insert-IsDict k v [] h = (refl, tt)
  insert-IsDict k v ((j, w) ∷ d) (h, hs) =
      ground (arith, insert-IsDict k v d hs, lookup-insert j k v d)

  pub erase-IsDict : (k : K) (d : Dict K V) → IsDict d → IsDict (erase k d)
  unfolding erase lookup
  erase-IsDict k [] h = tt
  erase-IsDict k ((j, w) ∷ d) (h, hs) = ground (arith, erase-IsDict k d hs, lookup-erase j k d)

  pub contains-keys :
      (k : K) (v : V) (d : Dict K V) → lookup k d ≡ some v → contains (keys d) k ≡ true
  unfolding lookup
  contains-keys k v [] h = cc
  contains-keys k v ((j, w) ∷ d) h = ground (arith, contains-keys k v d)

  pub lookup_of_contains :
      (k : K) (d : Dict K V) → contains (keys d) k ≡ true → (v : V) × (lookup k d ≡ some v)
  unfolding lookup
  lookup_of_contains k [] h = absurd (cc)
  lookup_of_contains k ((j, w) ∷ d) h = elim (e.dec k j) [
    | yes p ↦ (w, ground arith)
    | no n ↦ let (v, q) = lookup_of_contains k d (ground arith) in (v, ground arith)
  ]

  pub keys_of_missing : (k : K) (d : Dict K V) → lookup k d ≡ none → contains (keys d) k ≡ false
  unfolding lookup
  keys_of_missing k [] h = refl
  keys_of_missing k ((j, w) ∷ d) h = ground (arith, h, keys_of_missing k d)

  pub keys-insert :
      (k j : K) (v : V) (d : Dict K V)
      → contains (keys (insert j v d)) k ≡ (k == j || contains (keys d) k)
  unfolding insert
  keys-insert k j v [] = refl
  keys-insert k j v ((i, w) ∷ d) = ground (arith, keys-insert k j v d)

  -- An insertion at a key that is there leaves the keys.
  pub keys-insert_same :
      (k j : K) (v w : V) (d : Dict K V)
      → lookup j d ≡ some w
      → contains (keys d) k ≡ (k == j || contains (keys d) k)
  keys-insert_same k j v w d h = ground (arith, contains-keys j w d h)
