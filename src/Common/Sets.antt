-- ===== src/Common/Sets.antt =====
-- Lists with no duplicates, as sets: membership decides counts, searches and sorted order.
use Prim.Native.Nat.{suc, ◌≤◌}
use mathlib.Core.Path.{◌≡◌, refl, ap₂}
use mathlib.Core.Bool.{Bool, true, false, ◌&&◌, not}
use mathlib.Core.List.{List, [], ◌∷◌}
use native.Mathlib.Omega.{arith}
use reporting_platform_local.Common.Equality.{Eq, ◌==◌, contains, if◌then◌else◌}
use reporting_platform_local.Common.Lists.{
  any, count, filter, to_set, contains-to_set, contains-filter, any_of_contains, any_witness,
}
use reporting_platform_local.Common.Ordered.{
  Order, less_irrefl, less_trans, sort, IsAscending, contains_of_less, less_of_contains,
  sort-to_set-IsAscending,
}

module _ {A : Type 0} ⦃e : Eq A⦄ where
  abbrev pub IsNodup : List A → Type 0
  IsNodup [] = Unit
  IsNodup (x ∷ xs) = (contains xs x ≡ false) × IsNodup xs

  -- Each item of the one list is in the other.
  abbrev pub IsSubset : List A → List A → Type 0
  IsSubset xs ys = (a : A) → contains xs a ≡ true → contains ys a ≡ true

  pub to_set-IsNodup : (xs : List A) → IsNodup (to_set xs)
  to_set-IsNodup [] = tt
  to_set-IsNodup (x ∷ xs) = ground (arith, to_set-IsNodup xs)

  pub to_set-eq_self : (xs : List A) → IsNodup xs → to_set xs ≡ xs
  to_set-eq_self [] h = refl
  to_set-eq_self (x ∷ xs) (h, hs) = ground (arith, to_set-eq_self xs hs, contains-to_set xs x)

  without : A → List A → List A
  without a xs = filter (λ x. not (x == a)) xs

  without-IsNodup : (a : A) (xs : List A) → IsNodup xs → IsNodup (without a xs)
  unfolding without
  without-IsNodup a [] h = tt
  without-IsNodup a (x ∷ xs) (h, hs) =
      ground (arith, without-IsNodup a xs hs, contains-filter (λ y. not (y == a)) xs x)

  contains-without :
      (a : A) (xs : List A) (x : A) → contains (without a xs) x ≡ (contains xs x && not (x == a))
  unfolding without
  contains-without a xs x = contains-filter (λ y. not (y == a)) xs x

  count-without_absent :
      (p : A → Bool) (a : A) (xs : List A)
      → contains xs a ≡ false
      → count p (without a xs) ≡ count p xs
  unfolding without
  count-without_absent p a [] h = refl
  count-without_absent p a (x ∷ xs) h = ground (arith, count-without_absent p a xs)

  count_le-without :
      (p : A → Bool) (a : A) (xs : List A)
      → IsNodup xs
      → count p xs ≤ (if p a then suc (count p (without a xs)) else count p (without a xs))
  unfolding without
  count_le-without p a [] h = ground arith
  count_le-without p a (x ∷ xs) (h, hs) = elim (e.dec x a) [
    | yes q ↦ ground (arith, count-without_absent p x xs h)
    | no n ↦ ground (arith, count_le-without p a xs hs)
  ]

  -- A set with no duplicates counts no more than one that contains it.
  pub count_mono :
      (p : A → Bool) (ys xs : List A) → IsNodup xs → IsSubset xs ys → count p xs ≤ count p ys
  count_mono p [] [] n h = ground arith
  count_mono p [] (x ∷ xs) n h = absurd (ground (arith, h x))
  count_mono p (y ∷ ys) xs n h =
      let rest =
        count_mono p ys (without y xs) (without-IsNodup y xs n)
          (λ a m. ground (arith, h a, contains-without y xs a)) in
      ground (arith, rest, count_le-without p y xs n)

  pub any_mono :
      (p : A → Bool) (xs ys : List A) → IsSubset xs ys → any p xs ≡ true → any p ys ≡ true
  any_mono p xs ys h found =
      let (a, m, q) = any_witness p xs found in any_of_contains p ys a (h a m) q

  pub any_cong :
      (p : A → Bool) (xs ys : List A)
      → ((a : A) → contains xs a ≡ contains ys a)
      → any p xs ≡ any p ys
  any_cong p xs ys h = ground (
    arith,
    any_mono p xs ys (λ a m. ground (arith, h a)),
    any_mono p ys xs (λ a m. ground (arith, h a)),
  )

module _ {A : Type 0} ⦃e : Eq A⦄ ⦃o : Order A⦄ where
  head_eq :
      (x y : A) (xs ys : List A)
      → IsAscending (x ∷ xs)
      → IsAscending (y ∷ ys)
      → ((a : A) → contains (x ∷ xs) a ≡ contains (y ∷ ys) a)
      → x ≡ y
  head_eq x y xs ys (h, _) (k, _) m = ground (
    arith,
    m x,
    m y,
    less_of_contains x xs y h,
    less_of_contains y ys x k,
    less_trans x y x,
    less_irrefl x,
  )

  tail_contains :
      (x y : A) (xs ys : List A)
      → IsAscending (x ∷ xs)
      → IsAscending (y ∷ ys)
      → ((a : A) → contains (x ∷ xs) a ≡ contains (y ∷ ys) a)
      → (a : A) → contains xs a ≡ contains ys a
  tail_contains x y xs ys (h, hs) (k, ks) m a = ground (
    arith,
    head_eq x y xs ys (h, hs) (k, ks) m,
    m a,
    contains_of_less x xs h,
    contains_of_less y ys k,
  )

  -- Ascending lists with the same items are equal.
  pub IsAscending-ext :
      (xs ys : List A)
      → IsAscending xs
      → IsAscending ys
      → ((a : A) → contains xs a ≡ contains ys a)
      → xs ≡ ys
  IsAscending-ext [] [] h k m = refl
  IsAscending-ext [] (y ∷ ys) h k m = absurd (ground (arith, m y))
  IsAscending-ext (x ∷ xs) [] h k m = absurd (ground (arith, m x))
  IsAscending-ext (x ∷ xs) (y ∷ ys) (h, hs) (k, ks) m =
      ap₂ ◌∷◌ (head_eq x y xs ys (h, hs) (k, ks) m)
        (IsAscending-ext xs ys hs ks (tail_contains x y xs ys (h, hs) (k, ks) m))

  pub sort-IsAscending : (xs : List A) → IsNodup xs → IsAscending (sort xs)
  sort-IsAscending xs h = rw (to_set-eq_self xs h) at (sort-to_set-IsAscending xs)

  pub IsAscending-IsNodup : (xs : List A) → IsAscending xs → IsNodup xs
  IsAscending-IsNodup [] h = tt
  IsAscending-IsNodup (x ∷ xs) (h, hs) = (contains_of_less x xs h, IsAscending-IsNodup xs hs)
