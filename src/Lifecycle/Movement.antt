-- ===== src/Lifecycle/Movement.antt =====
-- When `inputs_changed` reports a change, and how it counts the candidates.
use reporting_platform_local.Common.{
  ◌+◌, Bool, true, false, not, ◌&&◌, some, List, [], ◌∷◌, map, ◌≡◌, ◌↔◌, refl, ◌∙◌, arith, String,
  ◌==◌, any, count, contains, contains-filter, contains-to_set, contains-sort, length,
  length-filter, length-sort, filter, sort, difference, Date, string_eq, date_eq, pair_eq,
  text_order, pair_order,
}
use reporting_platform_local.Lifecycle.Registry.{Version, Pair, Delivery, Registry}
use reporting_platform_local.Lifecycle.Inputs.{
  in_force, dated, registered, published_inputs, compare_inputs, inputs_changed, truthy_list,
}

-- The run of the version in force read this delivery.
abbrev pub was_input : Registry → String → Pair → Bool
was_input registry run_id p =
    any (λ i. i.run_id == run_id && i.feed_delivery == p) registry.run_inputs

module _ {A : Type 0} (f : A → Pair) (r : A → Bool) (q : Pair → Bool) where
  contains-map-filter :
      (xs : List A) (p : Pair)
      → contains (map f (filter (λ x. r x && q (f x)) xs)) p
        ≡ (any (λ x. r x && f x == p) xs && q p)
  contains-map-filter [] p = refl
  contains-map-filter (x ∷ xs) p = elim (pair_eq.dec (f x) p) [
    | yes same ↦ ground (arith, contains-map-filter xs p, same)
    | no other ↦ ground (arith, contains-map-filter xs p)
  ]

contains-published_inputs :
    (registry : Registry) (run_id : String) (d : Date) (p : Pair)
    → contains (published_inputs registry run_id d) p
      ≡ (was_input registry run_id p && dated registry d p)
unfolding published_inputs
contains-published_inputs registry run_id d p =
    contains-to_set
      (map (λ i. i.feed_delivery)
        (filter (λ i. i.run_id == run_id && dated registry d i.feed_delivery) registry.run_inputs))
      p
    ∙ contains-map-filter (λ i. i.feed_delivery) (λ i. i.run_id == run_id) (dated registry d)
        registry.run_inputs p

truthy_list_none : (xs : List Pair) → truthy_list xs ≡ false → (p : Pair) → contains xs p ≡ false
truthy_list_none [] h p = refl
truthy_list_none (x ∷ xs) h p = cc

truthy_list_of_none :
    (xs : List Pair) → ((p : Pair) → contains xs p ≡ false) → truthy_list xs ≡ false
truthy_list_of_none [] h = refl
truthy_list_of_none (x ∷ xs) h = ground (arith, h x)

-- The deliveries of the date that the candidate has are those that the published run read.
abbrev pub Agrees : Registry → Version → Date → List Pair → Type 0
Agrees registry v d candidate =
    (p : Pair) → dated registry d p ≡ true → contains candidate p ≡ was_input registry v.run_id p

compare_unchanged :
    (registry : Registry) (v : Version) (d : Date) (candidate : List Pair)
    → ((compare_inputs registry v d candidate).changed ≡ false) ↔ Agrees registry v d candidate
compare_unchanged registry v d candidate =
    let published = published_inputs registry v.run_id d in
    let known = filter (dated registry d) candidate in
    let added = difference known published in
    let removed = difference published known in
    let is_added = λ (p : Pair).
      contains-sort added p ∙ contains-filter (λ x. not (contains published x)) known p in
    let is_removed = λ (p : Pair).
      contains-sort removed p ∙ contains-filter (λ x. not (contains known x)) published p in
    let is_known = contains-filter (dated registry d) candidate in
    let is_published = contains-published_inputs registry v.run_id d in
    (
      (λ h p on. ground (
        arith,
        truthy_list_none (sort added) (ground arith) p,
        truthy_list_none (sort removed) (ground arith) p,
        is_added p,
        is_removed p,
        is_known p,
        is_published p,
      )),
      (λ h. ground (
        arith,
        truthy_list_of_none (sort added)
            (λ p. ground (arith, h p, is_added p, is_known p, is_published p)),
        truthy_list_of_none (sort removed)
            (λ p. ground (arith, h p, is_removed p, is_known p, is_published p)),
      )),
    )

-- With version `v` in force for the date, no change is reported exactly when the candidate and the
-- run of `v` have the same deliveries among those that the registry dates to the as-at date.
pub unchanged_iff :
    (registry : Registry) (report : String) (d : Date) (candidate : List Pair) (v : Version)
    → in_force registry.versions report d ≡ some v
    → ((inputs_changed registry report d candidate).changed ≡ false) ↔ Agrees registry v d candidate
unfolding inputs_changed
unchanged_iff registry report d candidate v e =
    rw (e, inputs_changed) (compare_unchanged registry v d candidate)

count_split :
    (q r : Pair → Bool) (xs : List Pair)
    → ((p : Pair) → q p ≡ true → r p ≡ true)
    → count (λ p. r p && not (q p)) xs + count q xs + count (λ p. not (r p)) xs ≡ length xs
count_split q r [] h = omega arith
count_split q r (x ∷ xs) h = ground (arith, h x, count_split q r xs h)

dated→registered :
    (d : Date) (ds : List Delivery) (p : Pair)
    → any (λ x. x.feed_delivery == p && x.cob_date == d) ds ≡ true
    → any (λ x. x.feed_delivery == p) ds ≡ true
dated→registered d [] p h = cc
dated→registered d (x ∷ ds) p h = ground (arith, dated→registered d ds p)

-- `off_date` counts the candidates that the registry has, for other dates only: each candidate is
-- off the date, on it, or unregistered.
pub off_date_counts :
    (registry : Registry) (report : String) (d : Date) (candidate : List Pair) (v : Version)
    → in_force registry.versions report d ≡ some v
    → (inputs_changed registry report d candidate).off_date
      ≡ count (λ p. registered registry p && not (dated registry d p)) candidate
unfolding inputs_changed
off_date_counts registry report d candidate v e =
    rw (e, inputs_changed)
      (omega (
        arith,
        length-filter (dated registry d) candidate,
        length-sort (filter (λ p. not (registered registry p)) candidate),
        length-filter (λ p. not (registered registry p)) candidate,
        count_split (dated registry d) (registered registry) candidate
            (λ p. dated→registered d registry.deliveries p),
      ))
