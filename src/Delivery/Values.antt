-- ===== src/Delivery/Values.antt =====
-- `value` of reporting_platform/ingest/control.py: the values of a control file's fields.
use Prim.Native.Char.{code}
use Prim.Native.String.{[], ◌∷◌}
use reporting_platform_local.Common.{
  ℕ, Bool, true, false, not, ◌&&◌, ◌||◌, Option, none, some, String, ◌==◌, if◌then◌else◌, leb,
  Result, ok, err, ◌>>◌, refuse_if, truthy, chars, Date, string_eq, nat_eq, date_eq, Eq, ◌≡◌, ap,
  eq_of_==, ==_refl, refl, arith,
}
use reporting_platform_local.Delivery.Control.{ControlError, value_error, Readers}

-- A value: a date is read from its compact text to a date and back by `isoformat`, which
-- `date.fromisoformat` reads again.
pub data Value : Type 0 where
  day : Date → Value
  number : ℕ → Value
  text : String → Value

abbrev is_same : Value → Value → Bool
is_same (day d) (day e) = d == e
is_same (number m) (number n) = m == n
is_same (text s) (text t) = s == t
is_same (day d) (number n) = false
is_same (day d) (text t) = false
is_same (number m) (day e) = false
is_same (number m) (text t) = false
is_same (text s) (day e) = false
is_same (text s) (number n) = false

same_value : (v w : Value) → is_same v w ≡ true → v ≡ w
same_value (day d) (day e) h = ap day (eq_of_== d e h)
same_value (number m) (number n) h = ap number (eq_of_== m n h)
same_value (text s) (text t) h = ap text (eq_of_== s t h)
same_value (day d) (number n) h = cc
same_value (day d) (text t) h = cc
same_value (number m) (day e) h = cc
same_value (number m) (text t) h = cc
same_value (text s) (day e) h = cc
same_value (text s) (number n) h = cc

is_same_refl : (v : Value) → is_same v v ≡ true
is_same_refl (day d) = ==_refl d
is_same_refl (number n) = ==_refl n
is_same_refl (text s) = ==_refl s

decide_by : (v w : Value) (same : Bool) → is_same v w ≡ same → Dec (v ≡ w)
decide_by v w true h = yes (same_value v w h)
decide_by v w false h = no (λ p. absurd (ground (arith, h, is_same_refl v, p)))

Value-discrete : Discrete Value
unfolding decide_by
Value-discrete v w = decide_by v w (is_same v w) refl

instance unfoldable pub value_eq : Eq Value
unfolding Value-discrete decide_by same_value is_same_refl
value_eq = record { dec = Value-discrete }

abbrev is_hex : ℕ → Bool
is_hex c = leb 0x30 c && leb c 0x39 || leb 0x61 c && leb c 0x66 || leb 0x41 c && leb c 0x46

unfoldable pub all_chars : (ℕ → Bool) → String → Bool
all_chars p [] = true
all_chars p (c ∷ s) = p (code c) && all_chars p s

module _ (readers : Readers) where
  abbrev day_of : Option Date → Result ControlError Value
  day_of none = err value_error
  day_of (some d) = ok (day d)

  abbrev count_value : String → Result ControlError Value
  count_value raw =
      refuse_if (not (truthy raw && all_chars readers.is_digit raw)) value_error
      >> ok (number (readers.int raw))

  abbrev md5_value : String → Result ControlError Value
  md5_value raw =
      refuse_if (not (chars raw == 32 && all_chars is_hex raw)) value_error
      >> ok (text (readers.lower raw))

  abbrev date_value : String → Result ControlError Value
  date_value raw =
      refuse_if (not (chars raw == 8 && all_chars readers.is_digit raw)) value_error
      >> day_of (readers.strptime raw)

  unfoldable pub value : String → Option String → Result ControlError Value
  value field none = err value_error
  value field (some raw) =
      if field == "row_count" || field == "version"
      then count_value raw
      else if field == "md5"
      then md5_value raw
      else if field == "cob_date"
      then date_value raw
      else ok (text raw)
