-- ===== src/Delivery/Readings.antt =====
-- What each format of reporting_platform/ingest/control.py reads a field from.
use reporting_platform_local.Common.{
  ℕ, zero, suc, ◌+◌, ◌≤◌, true, false, Option, none, some, List, [], ◌∷◌, map, any, not, filter,
  Dict, lookup, insert, lookup-insert, String, string_eq, ok, first_step, ◌≡◌, ◌≢◌, refl, sym,
  subst, arith, truthy, strip, contains, keys, ◌||◌, refuse_if, Listed, ◌⊎◌, inl, inr, Bool-cases,
  if◌then◌else◌,
}
use reporting_platform_local.Delivery.Control.{
  parse_error, Format, regex, delimited, key_value, Readers, group_of, require, require_text, blank,
  nth, index_from, partition, split_lines, no_duplicates, header_of, only_row, read_column,
  add_pair, add_lines, read_key,
}

-- A line gives the value of a key.
abbrev pub IsLine : String → List String → String → String → Type 0
IsLine separator lines key value =
    (line : String) × Listed line lines
    × ((raw : String × String) × (partition separator line ≡ some raw)
        × (strip raw.0 ≡ key)
        × (strip raw.1 ≡ value))

-- The rows that are not blank are the one row of values, under the header unless the columns are
-- declared.
abbrev pub IsTable : Option (List String) → List (List String) → List String → List String → Type 0
IsTable (some declared) rows names cells = (names ≡ declared) × (rows ≡ cells ∷ [])
IsTable none rows names cells =
    (header : List String) × (rows ≡ header ∷ cells ∷ []) × (names ≡ map strip header)

-- The last place at which a list has a name
abbrev pub IsLastPlace : List String → String → ℕ → Type 0
IsLastPlace names name k = (nth k names ≡ some name) × ((j : ℕ) → nth j names ≡ some name → j ≤ k)

pub require-some : {A : Type 0} → (o : Option A) (a : A) → require o ≡ ok a → o ≡ some a
require-some none a h = cc
require-some (some b) a h = ground (arith, h)

require_text-some :
    (o : Option String) (s : String) → require_text o ≡ ok s → (o ≡ some s) × (truthy s ≡ true)
require_text-some none s h = cc
require_text-some (some t) s h = elim (Bool-cases (truthy t)) [
  | inl e ↦ (ground (arith, h, e), ground (arith, h, e))
  | inr e ↦ absurd (ground (arith, h, e))
]

last_of_later :
    (x name : String) (names : List String) (k : ℕ)
    → ((j : ℕ) → nth j names ≡ some name → j ≤ k)
    → (j : ℕ) → nth j (x ∷ names) ≡ some name
    → j ≤ suc k
unfolding nth
last_of_later x name names k last zero e = omega arith
last_of_later x name names k last (suc j) e = omega (arith, last j e)

last_of_first :
    (x name : String) (names : List String)
    → ((j : ℕ) → nth j names ≢ some name)
    → (j : ℕ) → nth j (x ∷ names) ≡ some name
    → j ≤ 0
unfolding nth
last_of_first x name names absent zero e = omega arith
last_of_first x name names absent (suc j) e = absurd (absent j e)

absent_later :
    (x name : String) (names : List String)
    → name ≢ x
    → ((j : ℕ) → nth j names ≢ some name)
    → (j : ℕ) → nth j (x ∷ names) ≢ some name
unfolding nth
absent_later x name names n absent zero e = n (ground (arith, e))
absent_later x name names n absent (suc j) e = absent j e

index_from-IsLastPlace :
    (i : ℕ) (names : List String) (index : Dict String ℕ) (name : String) (place : ℕ)
    → lookup name (index_from i names index) ≡ some place
    → ((k : ℕ) × (place ≡ i + k) × IsLastPlace names name k)
      ⊎ ((lookup name index ≡ some place) × ((j : ℕ) → nth j names ≢ some name))
unfolding index_from nth
index_from-IsLastPlace i [] index name place h = inr (h, λ j e. absurd (cc))
index_from-IsLastPlace i (x ∷ names) index name place h =
    elim (index_from-IsLastPlace (suc i) names (insert x i index) name place h) [
      | inl (k, e, (at, last)) ↦
          inl (suc k, omega (arith, e), (at, last_of_later x name names k last))
      | inr (there, absent) ↦ elim (string_eq.dec name x) [
        | yes p ↦ inl (
          zero,
          ground (arith, there, p, lookup-insert name x i index),
          (ground (arith, p), last_of_first x name names absent),
        )
        | no n ↦ inr (
          ground (arith, there, n, lookup-insert name x i index),
          absent_later x name names n absent,
        )
      ]
    ]

module _ (readers : Readers) where
  -- What a text says of a field, in a format that maps the field
  abbrev pub Says : Format → String → String → String → Option String → Type 0
  Says regex text field pattern v = readers.search pattern (group_of field) text ≡ some v
  Says (delimited delimiter quote columns) text field column v =
      (all_rows : List (List String)) × (readers.rows delimiter quote text ≡ some all_rows)
      × ((names : List String) × ((cells : List String) × IsTable columns
              (filter (λ row. any (λ cell. not (blank cell)) row) all_rows) names cells
            × ((k : ℕ) × IsLastPlace names column k
                × ((cell : String) × (nth k cells ≡ some cell)
                    × (truthy (strip cell) ≡ true)
                    × (v ≡ some (strip cell))))))
  Says (key_value separator) text field key v =
      (value : String) × IsLine separator (split_lines false text) key value
      × (truthy value ≡ true)
      × (v ≡ some value)

  add_pair-lem :
      (o : Option (String × String)) (values more : Dict String String) (key value : String)
      → add_pair readers o values ≡ ok more
      → lookup key more ≡ some value
      → ((raw : String × String) × (o ≡ some raw) × (strip raw.0 ≡ key) × (strip raw.1 ≡ value))
        ⊎ (lookup key values ≡ some value)
  add_pair-lem none values more key value h l = absurd (cc)
  add_pair-lem (some (raw_key, raw_value)) values more key value h l =
      let (_, _, done) =
        first_step
          (refuse_if (not (truthy (strip raw_key)) || contains (keys values) (strip raw_key))
            parse_error)
          _ h in
      let e : insert (strip raw_key) (strip raw_value) values ≡ more = ground (arith, done) in
      let l1 = subst (λ (d : Dict String String). lookup key d ≡ some value) (sym e) l in
      let found = lookup-insert key (strip raw_key) (strip raw_value) values in
      elim (string_eq.dec key (strip raw_key)) [
        | yes p ↦ inl ((raw_key, raw_value), refl, sym p, ground (arith, l1, found, p))
        | no n ↦ inr (ground (arith, l1, found, n))
      ]

  add_lines-IsLine :
      (separator : String) (lines : List String) (values more : Dict String String)
      (key value : String)
      → add_lines readers separator lines values ≡ ok more
      → lookup key more ≡ some value
      → IsLine separator lines key value ⊎ (lookup key values ≡ some value)
  unfolding add_lines
  add_lines-IsLine separator [] values more key value h l = inr (ground (arith, h, l))
  add_lines-IsLine separator (line ∷ lines) values more key value h l =
      let (next, first, rest) =
        first_step
          (if blank line then ok values else add_pair readers (partition separator line) values) _
          h in
      elim (add_lines-IsLine separator lines next more key value rest l) [
        | inl (at, listed, raw) ↦ inl (at, inr listed, raw)
        | inr there ↦ elim (Bool-cases (blank line)) [
          | inl e ↦ inr (ground (arith, first, e, there))
          | inr e ↦
              elim (add_pair-lem (partition separator line) values next key value
                (ground (arith, first, e)) there) [
                  | inl raw ↦ inl (line, inl refl, raw)
                  | inr before ↦ inr before
                ]
        ]
      ]

  pub read_key-Says :
      (separator text field key : String) (values : Dict String String) (v : Option String)
      → add_lines readers separator (split_lines false text) [] ≡ ok values
      → read_key readers values (field, key) ≡ ok v
      → Says (key_value separator) text field key v
  unfolding lookup
  read_key-Says separator text field key values v h k =
      let (value, found, last) = first_step (require_text (lookup key values)) _ k in
      let (there, some_text) = require_text-some (lookup key values) value found in
      elim (add_lines-IsLine separator (split_lines false text) [] values key value h there) [
        | inl line ↦ (value, line, some_text, ground (arith, last))
        | inr before ↦ absurd (ground (arith, before))
      ]

  only_row-lem :
      (rows : List (List String)) (cells : List String)
      → only_row readers rows ≡ ok cells
      → rows ≡ cells ∷ []
  only_row-lem [] cells h = cc
  only_row-lem (row ∷ []) cells h = ground (arith, h)
  only_row-lem (row ∷ (other ∷ rows)) cells h = cc

  pub header_of-IsTable :
      (columns : Option (List String)) (rows rest : List (List String)) (names cells : List String)
      → header_of readers columns rows ≡ ok (names, rest)
      → only_row readers rest ≡ ok cells
      → IsTable columns rows names cells
  header_of-IsTable (some declared) rows rest names cells h k =
      (ground (arith, h), ground (arith, h, only_row-lem rest cells k))
  header_of-IsTable none [] rest names cells h k = absurd (cc)
  header_of-IsTable none (header ∷ rows) rest names cells h k =
      let (_, _, last) = first_step (no_duplicates readers (map strip header)) _ h in
      let one = only_row-lem rest cells k in
      (header, ground (arith, last, one), ground (arith, last))

  pub read_column-Says :
      (delimiter quote : String) (columns : Option (List String)) (text field column : String)
      (all_rows : List (List String)) (names cells : List String) (v : Option String)
      → readers.rows delimiter quote text ≡ some all_rows
      → IsTable columns (filter (λ row. any (λ cell. not (blank cell)) row) all_rows) names cells
      → read_column readers (index_from 0 names []) cells (field, column) ≡ ok v
      → Says (delimited delimiter quote columns) text field column v
  unfolding lookup
  read_column-Says delimiter quote columns text field column all_rows names cells v read table h =
      let (place, found, h1) = first_step (require (lookup column (index_from 0 names []))) _ h in
      let (cell, at, h2) = first_step (require (nth place cells)) _ h1 in
      let (value, stripped, h3) = first_step (require_text (some (strip cell))) _ h2 in
      let (same, some_text) = require_text-some (some (strip cell)) value stripped in
      let e : strip cell ≡ value = ground (arith, same) in
      let there = require-some (lookup column (index_from 0 names [])) place found in
      elim (index_from-IsLastPlace 0 names [] column place there) [
        | inr (nowhere, _) ↦ absurd (ground (arith, nowhere))
        | inl (k, same_place, last) ↦
            let p : place ≡ k = omega (arith, same_place) in
            (
              all_rows,
              read,
              (
                names,
                (
                  cells,
                  table,
                  (
                    k,
                    last,
                    (
                      cell,
                      subst (λ n. nth n cells ≡ some cell) p
                          (require-some (nth place cells) cell at),
                      ground (arith, some_text, e),
                      ground (arith, h3, e),
                    ),
                  ),
                ),
              ),
            )
      ]
