-- ===== src/Calendar/ByMonth.antt =====
-- The dict `by_month` of `month_end_dates`: for each month, the last date observed in it.
use reporting_platform_local.Common.{
  Bool, Option-cases, inl, inr, keys, keys-insert, keys-insert_same, erase, erase-IsDict, true,
  false, not, ◌&&◌, ◌||◌, Option, none, some, List, [], ◌∷◌, ◌≡◌, refl, arith, if◌then◌else◌, ◌==◌,
  contains, any, All, less, less_irrefl, less_trans, less_connected, date_order, Date, Month,
  month_of, Dict, values, lookup, insert, IsDict, lookup-insert, insert-IsDict, date_eq, pair_eq,
  nat_eq,
}
use reporting_platform_local.Calendar.{record_date, group}

-- The last of an optional date and a date.
unfoldable pub latest : Option Date → Date → Option Date
latest none d = some d
latest (some e) d = if less e d then some d else some e

unfoldable pub latest_in : Month → Option Date → List Date → Option Date
latest_in k acc [] = acc
latest_in k acc (d ∷ ds) = latest_in k (if k == month_of d then latest acc d else acc) ds

lookup-record_date :
    (k : Month) (m : Dict Month Date) (d : Date)
    → lookup k (record_date m d) ≡ (if k == month_of d then latest (lookup k m) d else lookup k m)
unfolding record_date latest
lookup-record_date k m d = ground (arith, lookup-insert k (month_of d) d m)

pub lookup-group :
    (k : Month) (m : Dict Month Date) (ds : List Date)
    → lookup k (group m ds) ≡ latest_in k (lookup k m) ds
unfolding group latest_in
lookup-group k m [] = refl
lookup-group k m (d ∷ ds) =
    ground (arith, lookup-group k (record_date m d) ds, lookup-record_date k m d)

unfoldable pub holds : Option Date → Date → Bool
holds none d = false
holds (some e) d = d == e

unfoldable pub above : Option Date → Date → Bool
above none d = false
above (some e) d = less d e

above-latest : (acc : Option Date) (x d : Date) → above (latest acc x) d ≡ (above acc d || less d x)
unfolding latest holds above
above-latest none x d = refl
above-latest (some e) x d = ground (arith, less_trans d e x, less_trans d x e, less_connected e x)

holds-latest :
    (acc : Option Date) (x d : Date)
    → above (latest acc x) d ≡ false
    → holds (latest acc x) d ≡ (holds acc d || d == x)
unfolding latest holds above
holds-latest none x d h = refl
holds-latest (some e) x d h = ground (arith, less_connected e x, less_irrefl x)

holds_below : (acc : Option Date) (d : Date) → holds acc d ≡ true → above acc d ≡ false
unfolding holds above
holds_below none d h = cc
holds_below (some e) d h = ground (arith, less_irrefl e)

-- The date that `latest_in` finds, as a Boolean formula.
abbrev Found : Month → Option Date → List Date → Date → Type 0
Found k acc ds d = holds (latest_in k acc ds) d ≡ (
    (holds acc d || contains ds d && k == month_of d)
    && not (above acc d || any (λ e. k == month_of e && less d e) ds))

latest_in_step :
    (k : Month) (acc : Option Date) (x : Date) (ds : List Date) (d : Date)
    → ((a : Option Date) → Found k a ds d)
    → Found k acc (x ∷ ds) d
unfolding latest_in
latest_in_step k acc x ds d ih = elim (pair_eq.dec k (month_of x)) [
  | yes p ↦ ground (arith, ih (latest acc x), above-latest acc x d, holds-latest acc x d)
  | no n ↦ ground (arith, ih acc)
]

-- What `latest_in` finds is the date of the month that has none of the month after it.
pub latest_in_lem :
    (k : Month) (acc : Option Date) (ds : List Date) (d : Date)
    → holds (latest_in k acc ds) d ≡ (
        (holds acc d || contains ds d && k == month_of d)
        && not (above acc d || any (λ e. k == month_of e && less d e) ds))
unfolding latest_in holds above
latest_in_lem k none [] d = refl
latest_in_lem k (some e) [] d = ground (arith, less_irrefl e)
latest_in_lem k acc (x ∷ ds) d = latest_in_step k acc x ds d (λ a. latest_in_lem k a ds d)

-- Each entry of `by_month` stands under the month of its date.
abbrev pub InMonth : Dict Month Date → Type 0
InMonth m = All (λ (k, d). k ≡ month_of d) m

insert-InMonth : (d : Date) (m : Dict Month Date) → InMonth m → InMonth (insert (month_of d) d m)
unfolding insert
insert-InMonth d [] h = (refl, tt)
insert-InMonth d ((k, e) ∷ m) (h, hs) = ground (arith, insert-InMonth d m hs)

pub record IsByMonth (m : Dict Month Date) : Type 0 where
  pub one_each : IsDict m
  pub in_month : InMonth m

record_date-IsByMonth : (m : Dict Month Date) (d : Date) → IsByMonth m → IsByMonth (record_date m d)
unfolding record_date
record_date-IsByMonth m d h =
    ground (arith, insert-IsDict (month_of d) d m h.one_each, insert-InMonth d m h.in_month)

pub group-IsByMonth : (m : Dict Month Date) (ds : List Date) → IsByMonth m → IsByMonth (group m ds)
unfolding group
group-IsByMonth m [] h = h
group-IsByMonth m (d ∷ ds) h = group-IsByMonth (record_date m d) ds (record_date-IsByMonth m d h)

pub contains-values :
    (m : Dict Month Date) (d : Date)
    → IsDict m
    → InMonth m
    → contains (values m) d ≡ holds (lookup (month_of d) m) d
unfolding lookup holds
contains-values [] d u h = refl
contains-values ((k, e) ∷ m) d (u, us) (h, hs) = ground (arith, contains-values m d us hs)

erase-InMonth : (k : Month) (m : Dict Month Date) → InMonth m → InMonth (erase k m)
unfolding erase
erase-InMonth k [] h = tt
erase-InMonth k ((j, d) ∷ m) (h, hs) = ground (arith, erase-InMonth k m hs)

pub erase-IsByMonth : (k : Month) (m : Dict Month Date) → IsByMonth m → IsByMonth (erase k m)
erase-IsByMonth k m h = record {
  one_each = erase-IsDict k m h.one_each;
  in_month = erase-InMonth k m h.in_month;
}

keep_or_insert :
    (b : Bool) (k j : Month) (d v : Date) (m : Dict Month Date)
    → lookup j m ≡ some v
    → contains (keys (if b then insert j d m else m)) k ≡ (k == j || contains (keys m) k)
keep_or_insert true k j d v m e = keys-insert k j d m
keep_or_insert false k j d v m e = keys-insert_same k j d v m e

keys-record_date :
    (k : Month) (m : Dict Month Date) (d : Date)
    → contains (keys (record_date m d)) k ≡ (k == month_of d || contains (keys m) k)
unfolding record_date
keys-record_date k m d = elim (Option-cases (lookup (month_of d) m)) [
  | inl e ↦ rw (e, record_date) (keys-insert k (month_of d) d m)
  | inr (v, e) ↦ rw (e, record_date) (keep_or_insert (less v d) k (month_of d) d v m e)
]

-- The keys are the months of the observed dates.
pub keys-group :
    (k : Month) (m : Dict Month Date) (ds : List Date)
    → contains (keys (group m ds)) k ≡ (contains (keys m) k || any (λ e. k == month_of e) ds)
unfolding group
keys-group k m [] = ground arith
keys-group k m (d ∷ ds) = ground (arith, keys-group k (record_date m d) ds, keys-record_date k m d)
