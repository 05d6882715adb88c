-- ===== src/Common/Dates.antt =====
-- Python's `datetime.date`, ordered as the triple (year, month, day), and the calendar months.
use Prim.Native.Nat.{ℕ}
use mathlib.Core.Path.{◌≡◌}
use mathlib.Core.Bool.{Bool, true, false}
use native.Mathlib.Decide.{ℕ_discrete}
use native.Mathlib.Omega.{arith}
use reporting_platform_local.Common.Equality.{Eq, ltb}
use reporting_platform_local.Common.Ordered.{Order}

pub record Date : Type 0 where
  pub year : ℕ
  pub month : ℕ
  pub day : ℕ

unfoldable pub Date-discrete : Discrete Date
unfolding ℕ_discrete
Date-discrete = hlevel ℕ_discrete

instance unfoldable pub date_eq : Eq Date
unfolding Date-discrete
date_eq = record { dec = Date-discrete }

-- `(d.year, d.month)`
abbrev pub Month : Type 0
Month = ℕ × ℕ

abbrev pub month_of : Date → Month
month_of d = (d.year, d.month)

-- `m < n` on tuples
abbrev pub month_before : Month → Month → Bool
month_before (a, b) (c, d) = elim (ltb a c) [
  | true ↦ true
  | false ↦ elim (ltb c a) [ true ↦ false | false ↦ ltb b d ]
]

abbrev pub before : Date → Date → Bool
before d e = elim (month_before (month_of d) (month_of e)) [
  | true ↦ true
  | false ↦ elim (month_before (month_of e) (month_of d)) [ true ↦ false | false ↦ ltb d.day e.day ]
]

pub month_before_irrefl : (m : Month) → month_before m m ≡ false
month_before_irrefl (a, b) = ground arith

pub month_before_trans :
    (m n k : Month) → month_before m n ≡ true → month_before n k ≡ true → month_before m k ≡ true
month_before_trans (a, b) (c, d) (f, g) h k = ground arith

pub month_before_connected :
    (m n : Month) → month_before m n ≡ false → month_before n m ≡ false → m ≡ n
month_before_connected (a, b) (c, d) h k = ground arith

instance unfoldable pub month_order : Order Month
month_order = record {
  lt = month_before;
  irrefl = month_before_irrefl;
  trans = month_before_trans;
  connected = month_before_connected;
}

pub before_irrefl : (d : Date) → before d d ≡ false
before_irrefl d = ground arith

pub before_trans : (d e f : Date) → before d e ≡ true → before e f ≡ true → before d f ≡ true
before_trans d e f h k = ground arith

pub before_connected : (d e : Date) → before d e ≡ false → before e d ≡ false → d ≡ e
before_connected d e h k = ground arith

instance unfoldable pub date_order : Order Date
date_order = record {
  lt = before;
  irrefl = before_irrefl;
  trans = before_trans;
  connected = before_connected;
}
