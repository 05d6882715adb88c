-- ===== src/Delivery/Agreement.antt =====
-- A resolved identity agrees with all the evidence that was configured.
use reporting_platform_local.Common.{
  true, false, Option, none, some, List, [], ◌∷◌, contains, contains-append, contains-to_set, keys,
  to_set, length, leb, String, ==_refl, ok, first_step, string_eq, ◌≡◌, refl, sym, ap, ◌∙◌, subst,
  arith, Listed, ◌⊎◌, inl, inr,
}
use reporting_platform_local.Delivery.Values.{Value, value_eq}
use reporting_platform_local.Delivery.Identity.{
  Evidence, require_consistent, gather, check_each, check_field, Selected, pick, select,
}

same_of_short :
    (vs : List Value) (v w : Value)
    → leb 2 (length vs) ≡ false
    → contains vs v ≡ true
    → contains vs w ≡ true
    → w ≡ v
same_of_short [] v w h k l = cc
same_of_short (x ∷ []) v w h k l = ground (arith, k, l)
same_of_short (x ∷ (y ∷ vs)) v w h k l = absurd (ground (arith, h))

require_consistent-same :
    (vs : List Value) (v w : Value)
    → require_consistent vs ≡ ok tt
    → contains vs v ≡ true
    → contains vs w ≡ true
    → w ≡ v
unfolding require_consistent
require_consistent-same vs v w h k l =
    same_of_short (to_set vs) v w (ground (arith, h)) (contains-to_set vs v ∙ k)
      (contains-to_set vs w ∙ l)

-- Evidence of a listed source is gathered.
contains-gather :
    (evidence : String → Evidence) (sources : List String) (source : String) (w : Value)
    → Listed source sources
    → contains (keys (evidence source)) w ≡ true
    → contains (gather evidence sources) w ≡ true
unfolding gather
contains-gather evidence [] source w l h = absurd l
contains-gather evidence (s ∷ sources) source w (inl e) h =
    let here = subst (λ t. contains (keys (evidence t)) w ≡ true) e h in
    ground (arith, contains-append (keys (evidence s)) (gather evidence sources) w, here)
contains-gather evidence (s ∷ sources) source w (inr l) h = ground (
  arith,
  contains-append (keys (evidence s)) (gather evidence sources) w,
  contains-gather evidence sources source w l h,
)

abbrev value_or : Value → Option Selected → Value
value_or v none = v
value_or v (some chosen) = chosen.value

-- What is selected is evidence of a listed source.
pick-cases :
    (source : String) (evidence : Evidence) (rest : Option Selected) (chosen : Selected)
    → pick source evidence rest ≡ some chosen
    → (contains (keys evidence) chosen.value ≡ true) ⊎ (rest ≡ some chosen)
pick-cases source [] rest chosen h = inr h
pick-cases source ((v, key) ∷ evidence) rest chosen h = inl (
    subst (λ c. contains (keys ((v, key) ∷ evidence)) c ≡ true)
      (ap (λ (o : Option Selected). value_or v o) h) (ground (arith, ==_refl v)))

select-gathered :
    (evidence : String → Evidence) (sources : List String) (chosen : Selected)
    → select evidence sources ≡ some chosen
    → contains (gather evidence sources) chosen.value ≡ true
unfolding select gather
select-gathered evidence [] chosen h = cc
select-gathered evidence (s ∷ sources) chosen h =
    let split = contains-append (keys (evidence s)) (gather evidence sources) chosen.value in
    elim (pick-cases s (evidence s) (select evidence sources) chosen h) [
      | inl here ↦ ground (arith, split, here)
      | inr later ↦ ground (arith, split, select-gathered evidence sources chosen later)
    ]

pub check_field-agrees :
    (evidence : String → Evidence) (sources : List String) (chosen : Selected)
    → check_field evidence sources ≡ ok tt
    → select evidence sources ≡ some chosen
    → (source : String) → Listed source sources
    → (w : Value) → contains (keys (evidence source)) w ≡ true
    → w ≡ chosen.value
unfolding check_field
check_field-agrees evidence sources chosen h k source l w m =
    let (_, _, consistent) =
      first_step (check_each evidence sources) (λ _. require_consistent (gather evidence sources))
        h in
    require_consistent-same (gather evidence sources) chosen.value w consistent
      (select-gathered evidence sources chosen k) (contains-gather evidence sources source w l m)

pick-none :
    (source : String) (evidence : Evidence) (rest : Option Selected)
    → pick source evidence rest ≡ none
    → (evidence ≡ []) × (rest ≡ none)
pick-none source [] rest h = (refl, h)
pick-none source ((v, key) ∷ evidence) rest h = cc

-- Where nothing is selected no listed source has evidence.
pub select-none :
    (evidence : String → Evidence) (sources : List String) (source : String)
    → select evidence sources ≡ none
    → Listed source sources
    → evidence source ≡ []
unfolding select
select-none evidence [] source h l = absurd l
select-none evidence (s ∷ sources) source h (inl e) =
    subst (λ t. evidence t ≡ []) (sym e) (pick-none s (evidence s) (select evidence sources) h).0
select-none evidence (s ∷ sources) source h (inr l) =
    select-none evidence sources source (pick-none s (evidence s) (select evidence sources) h).1 l
