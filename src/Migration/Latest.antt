-- ===== src/Migration/Latest.antt =====
-- The rows of `_latest_per_date` of reporting_platform/migration/acceptance.py.
use reporting_platform_local.Common.{
  true, ◌≤◌, Option, none, some, List, [], ◌∷◌, map, ◌≡◌, refl, sym, ◌∙◌, subst, arith, contains,
  contains-sort, Dict, keys, lookup, insert, IsDict, lookup-insert, insert-IsDict, contains-keys,
  keys_of_missing, ==_refl, lookup_of_contains, sort, IsAscending, insert_sorted-IsAscending, Date,
  date_eq, date_order, Listed, ◌⊎◌, inl, inr, Bool-cases, Option-cases, ltb,
}
use reporting_platform_local.Migration.Acceptance.{
  Comparison, record_run, by_business_date, look_up_all, latest_per_date,
}

abbrev date_of : Comparison → Date
date_of row = row.business_date

-- One comparison for each date that there is one of, by ascending date; each is one of those given,
-- and none of its date was executed later.
abbrev pub IsLatest : List Comparison → List Comparison → Type 0
IsLatest comparisons rows =
    IsAscending (map (λ row. row.business_date) rows)
    × ((row : Comparison) → Listed row rows → Listed row comparisons)
    × ((c : Comparison)
        → Listed c comparisons
        → (row : Comparison) × Listed row rows
          × (row.business_date ≡ c.business_date)
          × (c.executed_at ≤ row.executed_at))

-- Each row stands at its own date.
abbrev IsDated : Dict Date Comparison → Type 0
IsDated d = (bd : Date) (row : Comparison) → lookup bd d ≡ some row → row.business_date ≡ bd

-- The dict has a row of the date, executed no earlier.
abbrev Covers : Dict Date Comparison → Comparison → Type 0
Covers d c =
    (row : Comparison) × (lookup c.business_date d ≡ some row) × (c.executed_at ≤ row.executed_at)

record_run-cases :
    (d : Dict Date Comparison) (row : Comparison)
    → (record_run d row ≡ insert row.business_date row d) ⊎ (record_run d row ≡ d)
unfolding record_run
record_run-cases d row = elim (Option-cases (lookup row.business_date d)) [
  | inl e ↦ inl (ground (arith, e))
  | inr (existing, e) ↦ elim (Bool-cases (ltb existing.executed_at row.executed_at)) [
    | inl before ↦ inl (ground (arith, e, before))
    | inr after ↦ inr (ground (arith, e, after))
  ]
]

lookup-record_run :
    (d : Dict Date Comparison) (row found : Comparison) (bd : Date)
    → lookup bd (record_run d row) ≡ some found
    → ((bd ≡ row.business_date) × (found ≡ row)) ⊎ (lookup bd d ≡ some found)
lookup-record_run d row found bd h = elim (record_run-cases d row) [
  | inl e ↦ elim (date_eq.dec bd row.business_date) [
    | yes p ↦ inl (p, ground (arith, h, e, lookup-insert bd row.business_date row d))
    | no n ↦ inr (ground (arith, h, e, lookup-insert bd row.business_date row d))
  ]
  | inr e ↦ inr (ground (arith, h, e))
]

record_run-IsDated :
    (d : Dict Date Comparison) (row : Comparison) → IsDated d → IsDated (record_run d row)
record_run-IsDated d row dated bd found h = elim (lookup-record_run d row found bd h) [
  | inl (p, q) ↦ ground (arith, p, q)
  | inr there ↦ dated bd found there
]

record_run-IsDict :
    (d : Dict Date Comparison) (row : Comparison) → IsDict d → IsDict (record_run d row)
record_run-IsDict d row one = elim (record_run-cases d row) [
  | inl e ↦
      subst (λ (x : Dict Date Comparison). IsDict x) (sym e)
        (insert-IsDict row.business_date row d one)
  | inr e ↦ subst (λ (x : Dict Date Comparison). IsDict x) (sym e) one
]

record_run-Covers_here :
    (d : Dict Date Comparison) (row : Comparison) → Covers (record_run d row) row
unfolding record_run
record_run-Covers_here d row = elim (Option-cases (lookup row.business_date d)) [
  | inl e ↦
      (row, ground (arith, e, lookup-insert row.business_date row.business_date row d), omega arith)
  | inr (existing, e) ↦ elim (Bool-cases (ltb existing.executed_at row.executed_at)) [
    | inl before ↦ (
      row,
      ground (arith, e, before, lookup-insert row.business_date row.business_date row d),
      omega arith,
    )
    | inr after ↦ (existing, ground (arith, e, after), ground (arith, after))
  ]
]

record_run-Covers :
    (d : Dict Date Comparison) (row c : Comparison) → Covers d c → Covers (record_run d row) c
unfolding record_run
record_run-Covers d row c (found, there, late) =
    elim (date_eq.dec c.business_date row.business_date) [
      | yes p ↦
          let there_too = subst (λ bd. lookup bd d ≡ some found) p there in
          elim (Bool-cases (ltb found.executed_at row.executed_at)) [
            | inl before ↦ (
              row,
              ground (
                arith,
                p,
                there_too,
                before,
                lookup-insert c.business_date row.business_date row d,
              ),
              ground (arith, late, before),
            )
            | inr after ↦ (found, ground (arith, there, there_too, after), late)
          ]
      | no n ↦ elim (record_run-cases d row) [
        | inl e ↦ (
          found,
          ground (arith, there, e, lookup-insert c.business_date row.business_date row d),
          late,
        )
        | inr e ↦ (found, ground (arith, there, e), late)
      ]
    ]

by_business_date-IsDated :
    (d : Dict Date Comparison) (rows : List Comparison)
    → IsDated d
    → IsDated (by_business_date d rows)
unfolding by_business_date
by_business_date-IsDated d [] dated = dated
by_business_date-IsDated d (row ∷ rows) dated =
    by_business_date-IsDated (record_run d row) rows (record_run-IsDated d row dated)

by_business_date-IsDict :
    (d : Dict Date Comparison) (rows : List Comparison)
    → IsDict d
    → IsDict (by_business_date d rows)
unfolding by_business_date
by_business_date-IsDict d [] one = one
by_business_date-IsDict d (row ∷ rows) one =
    by_business_date-IsDict (record_run d row) rows (record_run-IsDict d row one)

by_business_date-Listed :
    (d : Dict Date Comparison) (rows : List Comparison) (bd : Date) (found : Comparison)
    → lookup bd (by_business_date d rows) ≡ some found
    → Listed found rows ⊎ (lookup bd d ≡ some found)
unfolding by_business_date
by_business_date-Listed d [] bd found h = inr h
by_business_date-Listed d (row ∷ rows) bd found h =
    elim (by_business_date-Listed (record_run d row) rows bd found h) [
      | inl later ↦ inl (inr later)
      | inr there ↦ elim (lookup-record_run d row found bd there) [
        | inl (p, q) ↦ inl (inl q)
        | inr before ↦ inr before
      ]
    ]

by_business_date-Covers :
    (d : Dict Date Comparison) (rows : List Comparison) (c : Comparison)
    → Listed c rows ⊎ Covers d c
    → Covers (by_business_date d rows) c
unfolding by_business_date
by_business_date-Covers d [] c (inl l) = absurd l
by_business_date-Covers d [] c (inr covered) = covered
by_business_date-Covers d (row ∷ rows) c (inl (inl p)) =
    by_business_date-Covers (record_run d row) rows c (
      inr (
        subst (λ (r : Comparison). Covers (record_run d row) r) (sym p)
          (record_run-Covers_here d row)))
by_business_date-Covers d (row ∷ rows) c (inl (inr l)) =
    by_business_date-Covers (record_run d row) rows c (inl l)
by_business_date-Covers d (row ∷ rows) c (inr covered) =
    by_business_date-Covers (record_run d row) rows c (inr (record_run-Covers d row c covered))

sort-keys-IsAscending : (d : Dict Date Comparison) → IsDict d → IsAscending (sort (keys d))
sort-keys-IsAscending [] one = tt
sort-keys-IsAscending ((bd, row) ∷ d) (new, one) =
    insert_sorted-IsAscending bd (sort (keys d))
      (contains-sort (keys d) bd ∙ keys_of_missing bd d new) (sort-keys-IsAscending d one)

look_up_all_dates :
    (d : Dict Date Comparison) (bds : List Date)
    → IsDated d
    → ((bd : Date) → contains bds bd ≡ true → contains (keys d) bd ≡ true)
    → map date_of (look_up_all d bds) ≡ bds
look_up_all_dates d [] dated known = refl
look_up_all_dates d (bd ∷ bds) dated known =
    let (row, there) = lookup_of_contains bd d (known bd (ground (arith, ==_refl bd))) in
    let rest = look_up_all_dates d bds dated (λ x h. known x (ground (arith, h))) in
    ground (arith, there, rest, dated bd row there)

Listed-looked_up :
    (o : Option Comparison) (rest : List Comparison) (row : Comparison)
    → Listed row (elim o [ none ↦ rest | some r ↦ r ∷ rest ])
    → (o ≡ some row) ⊎ Listed row rest
Listed-looked_up none rest row l = inr l
Listed-looked_up (some r) rest row (inl p) = inl (ground (arith, p))
Listed-looked_up (some r) rest row (inr l) = inr l

looked_up-Listed :
    (o : Option Comparison) (rest : List Comparison) (row : Comparison)
    → (o ≡ some row) ⊎ Listed row rest
    → Listed row (elim o [ none ↦ rest | some r ↦ r ∷ rest ])
looked_up-Listed none rest row (inl e) = absurd (cc)
looked_up-Listed none rest row (inr l) = l
looked_up-Listed (some r) rest row (inl e) = inl (ground (arith, e))
looked_up-Listed (some r) rest row (inr l) = inr l

look_up_all-Listed :
    (d : Dict Date Comparison) (bds : List Date) (row : Comparison)
    → Listed row (look_up_all d bds)
    → (bd : Date) × (lookup bd d ≡ some row)
look_up_all-Listed d [] row l = absurd l
look_up_all-Listed d (bd ∷ bds) row l =
    elim (Listed-looked_up (lookup bd d) (look_up_all d bds) row l) [
      | inl e ↦ (bd, e)
      | inr later ↦ look_up_all-Listed d bds row later
    ]

Listed-look_up_all :
    (d : Dict Date Comparison) (bds : List Date) (bd : Date) (row : Comparison)
    → lookup bd d ≡ some row
    → contains bds bd ≡ true
    → Listed row (look_up_all d bds)
Listed-look_up_all d [] bd row h m = absurd (cc)
Listed-look_up_all d (b ∷ bds) bd row h m = elim (date_eq.dec bd b) [
  | yes p ↦
      looked_up-Listed (lookup b d) (look_up_all d bds) row
        (inl (subst (λ x. lookup x d ≡ some row) p h))
  | no n ↦
      looked_up-Listed (lookup b d) (look_up_all d bds) row
        (inr (Listed-look_up_all d bds bd row h (ground (arith, m, n))))
]

pub latest_per_date-IsLatest :
    (comparisons : List Comparison) → IsLatest comparisons (latest_per_date comparisons)
unfolding latest_per_date lookup
latest_per_date-IsLatest comparisons =
    let d = by_business_date [] comparisons in
    let bds = sort (keys d) in
    let dated : IsDated d =
      by_business_date-IsDated [] comparisons (λ bd row h. absurd (ground (arith, h))) in
    let dates = look_up_all_dates d bds dated (λ bd h. sym (contains-sort (keys d) bd) ∙ h) in
    (
      subst (λ (xs : List Date). IsAscending xs) (sym dates)
          (sort-keys-IsAscending d (by_business_date-IsDict [] comparisons tt)),
      λ row l.
          let (bd, there) = look_up_all-Listed d bds row l in
          elim (by_business_date-Listed [] comparisons bd row there) [
            | inl listed ↦ listed
            | inr none_there ↦ absurd (ground (arith, none_there))
          ],
      λ c l.
          let (row, there, late) = by_business_date-Covers [] comparisons c (inl l) in
          (
            row,
            Listed-look_up_all d bds c.business_date row there (
                contains-sort (keys d) c.business_date ∙ contains-keys c.business_date row d there),
            dated c.business_date row there,
            late,
          ),
    )
