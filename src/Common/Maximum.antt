-- ===== src/Common/Maximum.antt =====
-- The laws of `max` over a sequence.
use mathlib.Core.Path.{◌≡◌}
use mathlib.Core.Bool.{true, false}
use mathlib.Core.Option.{some}
use mathlib.Core.List.{List, [], ◌∷◌}
use native.Mathlib.Omega.{arith}
use reporting_platform_local.Common.Equality.{Eq, contains}
use reporting_platform_local.Common.Ordered.{Order, less, later, max_from, maximum}

module _ {A : Type 0} ⦃e : Eq A⦄ ⦃o : Order A⦄ where
  less_or_le_trans : (a b c : A) → less a b ≡ false → less b c ≡ false → less a c ≡ false
  less_or_le_trans a b c h k =
      ground (arith, o.trans a c b, o.trans b a c, o.connected a b, o.connected b c, o.irrefl a)

  contains-max_from : (m : A) (xs : List A) → contains (m ∷ xs) (max_from m xs) ≡ true
  contains-max_from m [] = ground arith
  contains-max_from m (y ∷ ys) = ground (arith, contains-max_from (later m y) ys)

  max_from_ge_start : (m : A) (xs : List A) → less (max_from m xs) m ≡ false
  max_from_ge_start m [] = o.irrefl m
  max_from_ge_start m (y ∷ ys) =
      less_or_le_trans (max_from (later m y) ys) (later m y) m (max_from_ge_start (later m y) ys)
        (ground (arith, o.irrefl m, o.trans m y m))

  max_from_ge :
      (m : A) (xs : List A) (a : A) → contains xs a ≡ true → less (max_from m xs) a ≡ false
  max_from_ge m [] a h = absurd (cc)
  max_from_ge m (y ∷ ys) a h = elim (e.dec a y) [
    | yes p ↦
        less_or_le_trans (max_from (later m y) ys) (later m y) a (max_from_ge_start (later m y) ys)
          (ground (arith, o.irrefl y, o.irrefl m))
    | no n ↦ max_from_ge (later m y) ys a (ground arith)
  ]

  -- The maximum is in the sequence,
  pub contains-maximum : (xs : List A) (m : A) → maximum xs ≡ some m → contains xs m ≡ true
  contains-maximum [] m h = absurd (cc)
  contains-maximum (x ∷ xs) m h = ground (arith, contains-max_from x xs)

  -- and nothing in it is above the maximum.
  pub maximum_ge :
      (xs : List A) (m a : A) → maximum xs ≡ some m → contains xs a ≡ true → less m a ≡ false
  maximum_ge [] m a h k = absurd (cc)
  maximum_ge (x ∷ xs) m a h k = ground (arith, max_from_ge_start x xs, max_from_ge x xs a)
