-- ===== src/Common/Ordered.antt =====
-- Python's `<` on totally ordered values, `max` and `sorted`.
use Prim.Native.Nat.{ℕ, zero, suc, ◌+◌}
use mathlib.Core.Path.{◌≡◌, refl, sym, subst}
use mathlib.Core.Bool.{Bool, true, false, ◌&&◌}
use mathlib.Core.Option.{Option, none, some}
use mathlib.Core.List.{List, [], ◌∷◌}
use native.Mathlib.Omega.{arith}
use reporting_platform_local.Common.Equality.{Eq, contains, if◌then◌else◌, ltb}
use reporting_platform_local.Common.Lists.{length, drop, count, All, to_set}

pub record Order (A : Type 0) : Type 0 where
  pub lt : A → A → Bool
  pub irrefl : (a : A) → lt a a ≡ false
  pub trans : (a b c : A) → lt a b ≡ true → lt b c ≡ true → lt a c ≡ true
  pub connected : (a b : A) → lt a b ≡ false → lt b a ≡ false → a ≡ b

pub ltb_irrefl : (a : ℕ) → ltb a a ≡ false
ltb_irrefl a = ground arith

pub ltb_trans : (a b c : ℕ) → ltb a b ≡ true → ltb b c ≡ true → ltb a c ≡ true
ltb_trans a b c h k = ground arith

pub ltb_connected : (a b : ℕ) → ltb a b ≡ false → ltb b a ≡ false → a ≡ b
ltb_connected a b h k = ground arith

instance abbrev pub nat_order : Order ℕ
nat_order = record { lt = ltb; irrefl = ltb_irrefl; trans = ltb_trans; connected = ltb_connected }

module _ {A : Type 0} ⦃o : Order A⦄ where
  abbrev pub less : A → A → Bool
  less a b = o.lt a b

  -- `max` of two: the first of equals, as Python keeps it
  abbrev pub later : A → A → A
  later a b = if less a b then b else a

  abbrev pub max_from : A → List A → A
  max_from m [] = m
  max_from m (y ∷ ys) = max_from (later m y) ys

  -- `max(xs)`; `none` on an empty sequence, where Python raises
  abbrev pub maximum : List A → Option A
  maximum [] = none
  maximum (x ∷ xs) = some (max_from x xs)

  -- `sorted(xs)`, stable
  abbrev pub insert_sorted : A → List A → List A
  insert_sorted x [] = x ∷ []
  insert_sorted x (y ∷ ys) =
      let rest = insert_sorted x ys in if less y x then y ∷ rest else x ∷ y ∷ ys

  abbrev pub sort : List A → List A
  sort [] = []
  sort (x ∷ xs) = insert_sorted x (sort xs)

  -- ascending, with no two equal
  abbrev pub IsAscending : List A → Type 0
  IsAscending [] = Unit
  IsAscending (x ∷ xs) = All (λ y. less x y ≡ true) xs × IsAscending xs

  pub less_irrefl : (a : A) → less a a ≡ false
  less_irrefl = o.irrefl

  pub less_trans : (a b c : A) → less a b ≡ true → less b c ≡ true → less a c ≡ true
  less_trans = o.trans

  pub less_connected : (a b : A) → less a b ≡ false → less b a ≡ false → a ≡ b
  less_connected = o.connected

  asym : (a b : A) → less a b ≡ true → less b a ≡ false
  asym a b h = ground (arith, o.trans a b a, o.irrefl a)

  All-insert_sorted :
      (z x : A) (ys : List A)
      → less z x ≡ true
      → All (λ y. less z y ≡ true) ys
      → All (λ y. less z y ≡ true) (insert_sorted x ys)
  All-insert_sorted z x [] h k = (h, tt)
  All-insert_sorted z x (y ∷ ys) h (k, ks) = ground (arith, All-insert_sorted z x ys h ks)

  All-less_trans :
      (z x : A) (ys : List A)
      → less z x ≡ true
      → All (λ y. less x y ≡ true) ys
      → All (λ y. less z y ≡ true) ys
  All-less_trans z x [] h k = tt
  All-less_trans z x (y ∷ ys) h (k, ks) = (o.trans z x y h k, All-less_trans z x ys h ks)

  pub length-insert_sorted : (x : A) (ys : List A) → length (insert_sorted x ys) ≡ suc (length ys)
  length-insert_sorted x [] = refl
  length-insert_sorted x (y ∷ ys) = ground (arith, length-insert_sorted x ys)

  pub length-sort : (xs : List A) → length (sort xs) ≡ length xs
  length-sort [] = refl
  length-sort (x ∷ xs) = omega (arith, length-insert_sorted x (sort xs), length-sort xs)

  count-insert_sorted :
      (p : A → Bool) (x : A) (ys : List A)
      → count p (insert_sorted x ys) ≡ (if p x then suc (count p ys) else count p ys)
  count-insert_sorted p x [] = refl
  count-insert_sorted p x (y ∷ ys) = ground (arith, count-insert_sorted p x ys)

  pub count-sort : (p : A → Bool) (xs : List A) → count p (sort xs) ≡ count p xs
  count-sort p [] = refl
  count-sort p (x ∷ xs) = ground (arith, count-insert_sorted p x (sort xs), count-sort p xs)

module _ {A : Type 0} ⦃e : Eq A⦄ ⦃o : Order A⦄ where
  contains-insert_sorted :
      (x : A) (ys : List A) (a : A) → contains (insert_sorted x ys) a ≡ contains (x ∷ ys) a
  contains-insert_sorted x [] a = refl
  contains-insert_sorted x (y ∷ ys) a = ground (arith, contains-insert_sorted x ys a)

  pub contains-sort : (xs : List A) (a : A) → contains (sort xs) a ≡ contains xs a
  contains-sort [] a = refl
  contains-sort (x ∷ xs) a =
      ground (arith, contains-insert_sorted x (sort xs) a, contains-sort xs a)

  pub insert_sorted-IsAscending :
      (x : A) (ys : List A)
      → contains ys x ≡ false
      → IsAscending ys
      → IsAscending (insert_sorted x ys)
  insert_sorted-IsAscending x [] h k = (tt, tt)
  insert_sorted-IsAscending x (y ∷ ys) h (ks, k) = ground (
    arith,
    insert_sorted-IsAscending x ys,
    All-insert_sorted y x ys,
    All-less_trans x y ys,
    o.connected x y,
  )

  -- `sorted(set(xs))` ascends strictly.
  pub sort-to_set-IsAscending : (xs : List A) → IsAscending (sort (to_set xs))
  sort-to_set-IsAscending [] = tt
  sort-to_set-IsAscending (x ∷ xs) = ground (
    arith,
    sort-to_set-IsAscending xs,
    insert_sorted-IsAscending x (sort (to_set xs)),
    contains-sort (to_set xs) x,
  )

  pub contains_of_less :
      (x : A) (ys : List A) → All (λ y. less x y ≡ true) ys → contains ys x ≡ false
  contains_of_less x [] h = refl
  contains_of_less x (y ∷ ys) (h, hs) = ground (arith, contains_of_less x ys hs, o.irrefl x)

  pub less_of_contains :
      (x : A) (ys : List A) (d : A)
      → All (λ y. less x y ≡ true) ys
      → contains ys d ≡ true
      → less x d ≡ true
  less_of_contains x [] d h k = cc
  less_of_contains x (y ∷ ys) d (h, hs) k = ground (arith, less_of_contains x ys d hs)

  count_of_less :
      (x : A) (ys : List A) → All (λ y. less x y ≡ true) ys → count (less x) ys ≡ length ys
  count_of_less x [] h = refl
  count_of_less x (y ∷ ys) (h, hs) = ground (arith, count_of_less x ys hs)

  -- In an ascending list the items from position `k` on are those with few items above them.
  pub contains-drop :
      (k : ℕ) (xs : List A) (d : A)
      → IsAscending xs
      → contains (drop k xs) d ≡ (contains xs d && ltb (count (less d) xs + k) (length xs))
  contains-drop zero [] d h = refl
  contains-drop (suc k) [] d h = refl
  contains-drop zero (x ∷ xs) d (hs, h) = elim (e.dec d x) [
    | yes p ↦
        let top = subst (λ t. count (less t) xs ≡ length xs) (sym p) (count_of_less x xs hs) in
        ground (arith, o.irrefl x, top)
    | no n ↦ ground (arith, contains-drop zero xs d h, less_of_contains x xs d hs)
  ]
  contains-drop (suc k) (x ∷ xs) d (hs, h) = elim (e.dec d x) [
    | yes p ↦
        let top = subst (λ t. count (less t) xs ≡ length xs) (sym p) (count_of_less x xs hs) in
        let gone = subst (λ t. contains xs t ≡ false) (sym p) (contains_of_less x xs hs) in
        ground (arith, o.irrefl x, top, gone, contains-drop k xs d h)
    | no n ↦ ground (arith, contains-drop k xs d h, less_of_contains x xs d hs, asym x d)
  ]

-- Tuples compare by their first parts, then by their second.
module _ {A B : Type 0} ⦃o : Order A⦄ ⦃q : Order B⦄ where
  abbrev pub pair_before : A × B → A × B → Bool
  pair_before (a, b) (c, d) = elim (o.lt a c) [
    | true ↦ true
    | false ↦ elim (o.lt c a) [ true ↦ false | false ↦ q.lt b d ]
  ]

  pub pair_before_irrefl : (m : A × B) → pair_before m m ≡ false
  pair_before_irrefl (a, b) = ground (arith, o.irrefl a, q.irrefl b)

  pub pair_before_trans :
      (m n k : A × B) → pair_before m n ≡ true → pair_before n k ≡ true → pair_before m k ≡ true
  pair_before_trans (a, b) (c, d) (f, g) h k = ground (
    arith,
    o.trans a c f,
    o.trans c f a,
    o.trans f a c,
    o.trans c a f,
    o.connected a c,
    o.connected c f,
    o.connected a f,
    q.trans b d g,
    o.irrefl a,
  )

  pub pair_before_connected :
      (m n : A × B) → pair_before m n ≡ false → pair_before n m ≡ false → m ≡ n
  pair_before_connected (a, b) (c, d) h k = ground (arith, o.connected a c, q.connected b d)

  instance unfoldable pub pair_order : Order (A × B)
  pair_order = record {
    lt = pair_before;
    irrefl = pair_before_irrefl;
    trans = pair_before_trans;
    connected = pair_before_connected;
  }
