-- ===== src/Delivery/Complete.antt =====
-- The fields that `read` of reporting_platform/ingest/control.py returns, and their values.
use reporting_platform_local.Common.{
  Bool, true, false, Option, none, some, List, [], ◌∷◌, map, any, not, filter, keys, Dict, IsDict,
  insert, insert-IsDict, lookup, lookup-insert, String, Result, ok, first_step, ◌≡◌, refl, ap, sym,
  subst, arith, contains, contains-keys, contains-filter, keys_of_missing, string_eq, Listed, ◌⊎◌,
  inl, inr, Option-cases, if◌then◌else◌,
}
use reporting_platform_local.Delivery.Control.{
  ControlError, Control, Format, regex, delimited, key_value, Readers, wanted_of, add_wanted,
  read_each, index_from, split_lines, add_lines, require, blank, group_of, read_regex,
  read_regex_one, header_of, only_row, read_column, read_delimited, read_key, read_key_value,
  read_format, read_wanted, read,
}
use reporting_platform_local.Delivery.Readings.{
  Says, require-some, read_key-Says, header_of-IsTable, read_column-Says,
}

abbrev field_of : String × String → String
field_of w = w.0

-- A field has a value that was read, or is not among those wanted.
abbrev IsFilled :
    {V : Type 0}
    → (String × String → Result ControlError V)
    → List (String × String)
    → Dict String V
    → Dict String V
    → String
    → Type 0
IsFilled {V} read_one wanted before out field =
    ((v : V) × (lookup field out ≡ some v)
      × ((w : String × String) × Listed w wanted × (w.0 ≡ field) × (read_one w ≡ ok v)))
    ⊎ ((lookup field out ≡ lookup field before) × (contains (map field_of wanted) field ≡ false))

read_each-IsFilled :
    {V : Type 0}
    → (read_one : String × String → Result ControlError V) (wanted : List (String × String))
      (before out : Dict String V)
    → read_each read_one wanted before ≡ ok out
    → IsDict before
    → IsDict out × ((field : String) → IsFilled read_one wanted before out field)
unfolding read_each
read_each-IsFilled {V} read_one [] before out h one =
    let e : before ≡ out = ground (arith, h) in
    (
      subst (λ (d : Dict String V). IsDict d) e one,
      λ field. inr (ap (λ (d : Dict String V). lookup field d) (sym e), refl),
    )
read_each-IsFilled {V} read_one (w ∷ ws) before out h one =
    let (v, first, rest) = first_step (read_one w) _ h in
    let (kept, filled) =
      read_each-IsFilled read_one ws (insert w.0 v before) out rest
        (insert-IsDict w.0 v before one) in
    (
      kept,
      λ field. elim (filled field) [
        | inl (u, there, (x, listed, at, said)) ↦ inl (u, there, (x, inr listed, at, said))
        | inr (same, missing) ↦ elim (string_eq.dec field w.0) [
          | yes p ↦ inl (
            v,
            ground (arith, same, p, lookup-insert field w.0 v before),
            (w, inl refl, sym p, first),
          )
          | no n ↦ inr (
            ground (arith, same, n, lookup-insert field w.0 v before),
            ground (arith, missing, n),
          )
        ]
      ],
    )

wanted_step :
    (field : String) (o : Option String) (mapped : Bool) (rest : List (String × String))
    (fields : List String)
    → (o ≡ none → mapped ≡ false)
    → ((to : String) → o ≡ some to → mapped ≡ true)
    → map field_of rest ≡ fields
    → map field_of (add_wanted field o rest) ≡ (if mapped then field ∷ fields else fields)
wanted_step field none mapped rest fields absent there h = rw (absent refl) h
wanted_step field (some to) mapped rest fields absent there h =
    rw (there to refl) (ap (λ fields. field ∷ fields) h)

map-wanted_of :
    (control : Control) (fields : List String)
    → map field_of (wanted_of control fields)
      ≡ filter (λ field. contains (keys control.fields) field) fields
unfolding wanted_of
map-wanted_of control [] = refl
map-wanted_of control (field ∷ fields) =
    wanted_step field (lookup field control.fields) (contains (keys control.fields) field)
      (wanted_of control fields) (filter (λ field. contains (keys control.fields) field) fields)
      (keys_of_missing field control.fields)
      (λ to there. contains-keys field to control.fields there) (map-wanted_of control fields)

Listed-add_wanted :
    (field : String) (o : Option String) (rest : List (String × String)) (w : String × String)
    → Listed w (add_wanted field o rest)
    → ((w.0 ≡ field) × (o ≡ some w.1)) ⊎ Listed w rest
Listed-add_wanted field none rest w l = inr l
Listed-add_wanted field (some to) rest w (inl p) =
    inl (ap (λ (x : String × String). x.0) p, ap (λ (x : String × String). some x.1) (sym p))
Listed-add_wanted field (some to) rest w (inr l) = inr l

Listed-wanted_of :
    (control : Control) (fields : List String) (w : String × String)
    → Listed w (wanted_of control fields)
    → (contains fields w.0 ≡ true) × (lookup w.0 control.fields ≡ some w.1)
unfolding wanted_of
Listed-wanted_of control [] w l = absurd l
Listed-wanted_of control (field ∷ fields) w l =
    elim (Listed-add_wanted field (lookup field control.fields) (wanted_of control fields) w l) [
      | inl (p, e) ↦ (ground (arith, p), subst (λ f. lookup f control.fields ≡ some w.1) (sym p) e)
      | inr later ↦
          let (asked, mapped) = Listed-wanted_of control fields w later in
          (ground (arith, asked), mapped)
    ]

module _ (readers : Readers) (format : Format) (text : String) where
  -- A field has the value that the text gives it, or is not among those wanted.
  abbrev IsSaid : List (String × String) → String → Option (Option String) → Type 0
  IsSaid wanted field o =
      ((v : Option String) × (o ≡ some v)
        × ((w : String × String) × Listed w wanted
            × (w.0 ≡ field)
            × Says readers format text w.0 w.1 v))
      ⊎ ((o ≡ none) × (contains (map field_of wanted) field ≡ false))

  read_each-IsSaid :
      (read_one : String × String → Result ControlError (Option String))
      (wanted : List (String × String)) (out : Dict String (Option String))
      → ((w : String × String) (v : Option String)
          → read_one w ≡ ok v
          → Says readers format text w.0 w.1 v)
      → read_each read_one wanted [] ≡ ok out
      → IsDict out × ((field : String) → IsSaid wanted field (lookup field out))
  unfolding lookup
  read_each-IsSaid read_one wanted out says h =
      let (one, filled) = read_each-IsFilled read_one wanted [] out h tt in
      (
        one,
        λ field. elim (filled field) [
          | inl (v, there, (w, listed, at, e)) ↦ inl (v, there, (w, listed, at, says w v e))
          | inr (same, missing) ↦ inr (same, missing)
        ],
      )

module _ (readers : Readers) where
  read_format-IsSaid :
      (format : Format) (text : String) (wanted : List (String × String))
      (out : Dict String (Option String))
      → read_format readers format text wanted ≡ ok out
      → IsDict out × ((field : String) → IsSaid readers format text wanted field (lookup field out))
  unfolding read_regex read_delimited read_key_value
  read_format-IsSaid regex text wanted out h =
      read_each-IsSaid readers regex text (read_regex_one readers text) wanted out
        (λ w v e. require-some (readers.search w.1 (group_of w.0) text) v e) h
  read_format-IsSaid (delimited delimiter quote columns) text wanted out h =
      let (all_rows, rows, h1) = first_step (require (readers.rows delimiter quote text)) _ h in
      let (table, header, h2) =
        first_step
          (header_of readers columns (filter (λ row. any (λ cell. not (blank cell)) row) all_rows))
          _ h1 in
      let (cells, row, h3) = first_step (only_row readers table.1) _ h2 in
      let is_table =
        header_of-IsTable readers columns
          (filter (λ row. any (λ cell. not (blank cell)) row) all_rows) table.1 table.0 cells header
          row in
      read_each-IsSaid readers (delimited delimiter quote columns) text
        (read_column readers (index_from 0 table.0 []) cells) wanted out
        (λ w v e.
          read_column-Says readers delimiter quote columns text w.0 w.1 all_rows table.0 cells v
            (require-some (readers.rows delimiter quote text) all_rows rows) is_table e)
        h3
  read_format-IsSaid (key_value separator) text wanted out h =
      let (pairs, added, h1) =
        first_step (add_lines readers separator (split_lines false text) []) _ h in
      read_each-IsSaid readers (key_value separator) text (read_key readers pairs) wanted out
        (λ w v e. read_key-Says readers separator text w.0 w.1 pairs v added e) h1

  read_wanted-IsSaid :
      (control : Control) (text : String) (wanted : List (String × String))
      (out : Dict String (Option String))
      → read_wanted readers control text wanted ≡ ok out
      → IsDict out
        × ((field : String) → IsSaid readers control.format text wanted field (lookup field out))
  unfolding lookup
  read_wanted-IsSaid control text [] out h =
      let e : [] ≡ out = ground (arith, h) in
      (
        subst (λ (d : Dict String (Option String)). IsDict d) e tt,
        λ field. inr (ap (λ (d : Dict String (Option String)). lookup field d) (sym e), refl),
      )
  read_wanted-IsSaid control text (w ∷ ws) out h =
      read_format-IsSaid control.format text (w ∷ ws) out h

  -- What is returned for a field: nothing where it is not asked for or not mapped, and otherwise what
  -- the text says of it
  abbrev pub IsReading : Control → String → List String → String → Option (Option String) → Type 0
  IsReading control text fields field none =
      (contains fields field ≡ false) ⊎ (lookup field control.fields ≡ none)
  IsReading control text fields field (some v) =
      (contains fields field ≡ true)
      × ((to : String) × (lookup field control.fields ≡ some to)
          × Says readers control.format text field to v)

  IsSaid-IsReading :
      (control : Control) (text : String) (fields : List String) (field : String)
      (o : Option (Option String))
      → IsSaid readers control.format text (wanted_of control fields) field o
      → IsReading control text fields field o
  IsSaid-IsReading control text fields field none (inl (v, e, said)) = absurd (cc)
  IsSaid-IsReading control text fields field (some u) (inl (v, e, (w, listed, at, says))) =
      let (asked, mapped) = Listed-wanted_of control fields w listed in
      let same : v ≡ u = ground (arith, e) in
      (
        subst (λ f. contains fields f ≡ true) at asked,
        (
          w.1,
          subst (λ f. lookup f control.fields ≡ some w.1) at mapped,
          subst (λ u. Says readers control.format text field w.1 u) same
              (subst (λ f. Says readers control.format text f w.1 v) at says),
        ),
      )
  IsSaid-IsReading control text fields field none (inr (e, missing)) =
      let kept = ap (λ names. contains names field) (map-wanted_of control fields) in
      let both = contains-filter (λ f. contains (keys control.fields) f) fields field in
      elim (Option-cases (lookup field control.fields)) [
        | inl unmapped ↦ inr unmapped
        | inr (to, mapped) ↦
            inl (ground (arith, missing, kept, both, contains-keys field to control.fields mapped))
      ]
  IsSaid-IsReading control text fields field (some u) (inr (e, missing)) = absurd (cc)

  -- A control file that is read gives one value to each field which is asked for and mapped, and none
  -- to any other. The value is what the text says of the field: in a file of patterns, the group of the
  -- match of its pattern; in a delimited file, the stripped cell, not empty, of the only row that is
  -- not blank, under the last column of the name; in a file of keys and values, the stripped text, not
  -- empty, after the separator of a line whose stripped key it is.
  pub read-IsReading :
      (control : Control) (text : String) (fields : List String) (out : Dict String (Option String))
      → read readers control text fields ≡ ok out
      → IsDict out × ((field : String) → IsReading control text fields field (lookup field out))
  unfolding read
  read-IsReading control text fields out h =
      let (one, said) = read_wanted-IsSaid control text (wanted_of control fields) out h in
      (one, λ field. IsSaid-IsReading control text fields field (lookup field out) (said field))
