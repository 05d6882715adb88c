-- ===== src/Lifecycle/Inputs.antt =====
-- `inputs_changed` of lifecycle.py: whether the inputs of the version in force have moved.
use reporting_platform_local.Common.{
  ℕ, ◌-◌, Bool, true, false, not, ◌&&◌, ◌||◌, Option, none, some, List, [], ◌∷◌, map, String, ◌==◌,
  if◌then◌else◌, ltb, sort, filter, any, length, to_set, difference, Date, string_eq, nat_eq,
  date_eq, pair_eq, text_order, pair_order,
}
use reporting_platform_local.Lifecycle.Registry.{Version, Pair, Registry}

-- `WHERE v.report = %s AND v.as_at_date = %s ORDER BY v.version_no DESC LIMIT 1`
unfoldable pub in_force : List Version → String → Date → Option Version
in_force [] report as_at_date = none
in_force (v ∷ vs) report as_at_date =
    let rest = in_force vs report as_at_date in
    if v.report == report && v.as_at_date == as_at_date
    then elim rest [
      | none ↦ some v
      | some u ↦ if ltb u.version_no v.version_no then some v else some u
    ]
    else rest

-- The pairs that the registry of deliveries has for a date, and those it has at all.
abbrev pub dated : Registry → Date → Pair → Bool
dated registry as_at_date p =
    any (λ d. d.feed_delivery == p && d.cob_date == as_at_date) registry.deliveries

abbrev pub registered : Registry → Pair → Bool
registered registry p = any (λ d. d.feed_delivery == p) registry.deliveries

-- `SELECT i.feed, i.delivery_id … WHERE i.run_id = %s AND d.cob_date = %s`, joined on the pair
unfoldable pub published_inputs : Registry → String → Date → List Pair
published_inputs registry run_id as_at_date = to_set (
    map (λ i. i.feed_delivery)
      (filter (λ i. i.run_id == run_id && dated registry as_at_date i.feed_delivery)
        registry.run_inputs))

pub record Delta : Type 0 where
  pub changed : Bool
  pub published_version : Option ℕ
  pub published_run : Option String
  pub added : List Pair
  pub removed : List Pair
  pub unregistered : List Pair
  pub off_date : ℕ

-- Nothing has been published for the date.
abbrev pub nothing_published : Delta
nothing_published = record {
  changed = false;
  published_version = none;
  published_run = none;
  added = [];
  removed = [];
  unregistered = [];
  off_date = 0;
}

abbrev pub truthy_list : List Pair → Bool
truthy_list [] = false
truthy_list (x ∷ xs) = true

-- `candidate` is a set: a list with no duplicates.
abbrev pub compare_inputs : Registry → Version → Date → List Pair → Delta
compare_inputs registry v as_at_date candidate =
    let published = published_inputs registry v.run_id as_at_date in
    let known = filter (dated registry as_at_date) candidate in
    let unregistered = sort (filter (λ p. not (registered registry p)) candidate) in
    let added = sort (difference known published) in
    let removed = sort (difference published known) in
    record {
      changed = truthy_list added || truthy_list removed;
      published_version = some v.version_no;
      published_run = some v.run_id;
      added = added;
      removed = removed;
      unregistered = unregistered;
      off_date = length candidate - length known - length unregistered;
    }

unfoldable pub inputs_changed : Registry → String → Date → List Pair → Delta
unfolding in_force published_inputs
inputs_changed registry report as_at_date candidate =
    elim (in_force registry.versions report as_at_date) [
      | none ↦ nothing_published
      | some v ↦ compare_inputs registry v as_at_date candidate
    ]
