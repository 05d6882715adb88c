-- ===== src/Migration/Pairing.antt =====
-- What the pairing of the two sides' evidence rests on.
use reporting_platform_local.Common.{
  ℕ, ◌<◌, ◌≤◌, Bool, true, false, ◌&&◌, Option, none, some, String, ◌==◌, string_eq, Date, date_eq,
  ok, List, [], ◌∷◌, if◌then◌else◌, or_empty, truthy, ◌≡◌, refl, sym, ap, arith, Bool-cases, inl,
  inr, ◌⊎◌,
}
use reporting_platform_local.Migration.Correlate.{
  Tier, producer_run, source_hash, filename, business_date_only, Evidence, Correlation,
  correlation_key, strongest, correlate, on_tier,
}

-- The place of a tier in the ranking, the strongest first
abbrev pub rank : Tier → ℕ
rank producer_run = 0
rank source_hash = 1
rank filename = 2
rank business_date_only = 3

weakest : (t : Tier) → rank t ≤ 3
weakest producer_run = omega arith
weakest source_hash = omega arith
weakest filename = omega arith
weakest business_date_only = omega arith

abbrev pub when_both : Bool → List String → Option (List String)
when_both true parts = some parts
when_both false parts = none

both_fail :
    (a b : Bool) (xs ys : List String)
    → a && b ≡ false
    → (when_both a xs ≡ none) ⊎ (when_both b ys ≡ none)
both_fail a b xs ys h = ground arith

module _ (lower : String → String) where
  -- What one side's evidence offers on a tier
  abbrev pub offered : Tier → Evidence → Option (List String)
  offered producer_run e =
      when_both (truthy (or_empty e.producer_run_id)) (or_empty e.producer_run_id ∷ [])
  offered source_hash e =
      when_both (truthy (or_empty e.source_sha256)) (lower (or_empty e.source_sha256) ∷ [])
  offered filename e =
      when_both (truthy (or_empty e.source_filename) && truthy (or_empty e.source_system))
        (or_empty e.source_system ∷ or_empty e.source_filename ∷ [])
  offered business_date_only e = some []

both_sym : (a b : Bool) → a && b ≡ b && a
both_sym true true = refl
both_sym true false = refl
both_sym false true = refl
both_sym false false = refl

if_cong :
    {A : Type 0} {b b' : Bool} {x x' y y' : A}
    → b ≡ b'
    → x ≡ x'
    → y ≡ y'
    → (if b then x else y) ≡ (if b' then x' else y')
if_cong {A} {b} {b'} {x} {x'} {y} {y'} p q r = rw (p, q, r)

same_sym :
    (a b : String) (f g : String → Correlation)
    → ((s : String) → f s ≡ g s)
    → (if a == b then some (f a) else none) ≡ (if b == a then some (g b) else none)
same_sym a b f g alike = ground (arith, alike a)

same_pair_sym :
    (a b c d : String) (f g : String → String → Correlation)
    → ((s t : String) → f s t ≡ g s t)
    → (if a == b && c == d then some (f c a) else none)
      ≡ (if b == a && d == c then some (g d b) else none)
same_pair_sym a b c d f g alike = ground (arith, alike c a)

four_sym : (a b c d : Bool) → a && b && c && d ≡ b && a && d && c
four_sym a b c d = ground arith

four_parts : (a b c d : Bool) → a && b && c && d ≡ true → (a && c ≡ true) × (b && d ≡ true)
four_parts a b c d h = (ground arith, ground arith)

four_apart : (a b c d : Bool) → a && b && c && d ≡ false → (a && c ≡ false) ⊎ (b && d ≡ false)
four_apart a b c d h = ground arith

past_test :
    {A : Type 0} {b : Bool} (x : Option A) {y : Option A} {c : A}
    → b ≡ false
    → (if b then x else y) ≡ some c
    → y ≡ some c
past_test {A} {b} x {y} {c} fails h = ground arith

at_test :
    {A : Type 0} {b : Bool} {x : Option A} (y : Option A) {c : A}
    → b ≡ true
    → (if b then x else y) ≡ some c
    → x ≡ some c
at_test {A} {b} {x} y {c} holds h = ground arith

same_pair :
    (a b c d : String) (x : Correlation) {found : Correlation}
    → (if a == b && c == d then some x else none) ≡ some found
    → (a ≡ b) × (c ≡ d) × (x ≡ found)
same_pair a b c d x {found} h = (ground arith, ground arith, ground arith)

module _ (digest : String → String) (isoformat : Date → String) (lower : String → String) where
  tier_of :
      (tier : Tier) (legacy : Evidence) (same : Bool) (parts : List String) {c : Correlation}
      → (if same then some (on_tier digest isoformat lower tier legacy parts) else none) ≡ some c
      → c.tier ≡ tier
  tier_of tier legacy true parts {c} h = ground arith
  tier_of tier legacy false parts {c} h = cc

  name_agrees :
      (legacy new : Evidence) (c : Correlation)
      → truthy (or_empty legacy.source_filename)
          && truthy (or_empty new.source_filename)
          && truthy (or_empty legacy.source_system)
          && truthy (or_empty new.source_system)
        ≡ true
      → (if or_empty legacy.source_filename == or_empty new.source_filename
            && or_empty legacy.source_system == or_empty new.source_system
          then some (
              on_tier digest isoformat lower filename legacy
                (or_empty legacy.source_system ∷ or_empty legacy.source_filename ∷ []))
          else none)
        ≡ some c
      → (parts : List String) × (offered lower c.tier legacy ≡ some parts)
        × (offered lower c.tier new ≡ some parts)
        × (c.key
            ≡ correlation_key digest isoformat lower c.tier legacy.feed legacy.business_date parts)
  name_agrees legacy new c name h =
      let (names, systems, found) =
        same_pair (or_empty legacy.source_filename) (or_empty new.source_filename)
          (or_empty legacy.source_system) (or_empty new.source_system)
          (on_tier digest isoformat lower filename legacy
            (or_empty legacy.source_system ∷ or_empty legacy.source_filename ∷ []))
          h in
      let (left, right) =
        four_parts (truthy (or_empty legacy.source_filename))
          (truthy (or_empty new.source_filename)) (truthy (or_empty legacy.source_system))
          (truthy (or_empty new.source_system)) name in
      (
        or_empty legacy.source_system ∷ or_empty legacy.source_filename ∷ [],
        rw (sym found, left),
        rw (sym found, right, names, systems),
        rw (sym found),
      )

  -- The tier of a correlation is one that both sides supply, with the same content, which its key
  -- is the digest of.
  strongest_agrees :
      (allow : Bool) (legacy new : Evidence) (c : Correlation)
      → strongest digest isoformat lower allow legacy new ≡ some c
      → (parts : List String) × (offered lower c.tier legacy ≡ some parts)
        × (offered lower c.tier new ≡ some parts)
        × (c.key
            ≡ correlation_key digest isoformat lower c.tier legacy.feed legacy.business_date parts)
  unfolding strongest
  strongest_agrees allow legacy new c h =
      elim (Bool-cases
        (truthy (or_empty legacy.producer_run_id) && truthy (or_empty new.producer_run_id))) [
          | inl run ↦
              (or_empty legacy.producer_run_id ∷ [], ground arith, ground arith, ground arith)
          | inr no_run ↦
              elim (Bool-cases
                (truthy (or_empty legacy.source_sha256) && truthy (or_empty new.source_sha256))) [
                  | inl hash ↦ (
                    lower (or_empty legacy.source_sha256) ∷ [],
                    ground arith,
                    ground arith,
                    ground arith,
                  )
                  | inr no_hash ↦
                      elim (Bool-cases (
                        truthy (or_empty legacy.source_filename)
                        && truthy (or_empty new.source_filename)
                        && truthy (or_empty legacy.source_system)
                        && truthy (or_empty new.source_system))) [
                          | inl name ↦
                              name_agrees legacy new c name
                                (at_test _ name (past_test _ no_hash (past_test _ no_run h)))
                          | inr no_name ↦ ([], ground arith, ground arith, ground arith)
                        ]
                ]
        ]

  strongest_opted :
      (allow : Bool) (legacy new : Evidence) (c : Correlation)
      → strongest digest isoformat lower allow legacy new ≡ some c
      → c.tier ≡ business_date_only
      → allow ≡ true
  unfolding strongest
  strongest_opted allow legacy new c h only = ground arith

  strongest_first :
      (allow : Bool) (legacy new : Evidence) (c : Correlation)
      → strongest digest isoformat lower allow legacy new ≡ some c
      → (t : Tier) → rank t < rank c.tier
      → (offered lower t legacy ≡ none) ⊎ (offered lower t new ≡ none)
  unfolding strongest
  strongest_first allow legacy new c h producer_run stronger =
      elim (Bool-cases
        (truthy (or_empty legacy.producer_run_id) && truthy (or_empty new.producer_run_id))) [
          | inl run ↦
              absurd (
                omega
                  (arith, stronger, ap rank (tier_of producer_run legacy _ _ (at_test _ run h))))
          | inr no_run ↦ both_fail _ _ _ _ no_run
        ]
  strongest_first allow legacy new c h source_hash stronger =
      elim (Bool-cases
        (truthy (or_empty legacy.producer_run_id) && truthy (or_empty new.producer_run_id))) [
          | inl run ↦
              absurd (
                omega
                  (arith, stronger, ap rank (tier_of producer_run legacy _ _ (at_test _ run h))))
          | inr no_run ↦
              elim (Bool-cases
                (truthy (or_empty legacy.source_sha256) && truthy (or_empty new.source_sha256))) [
                  | inl hash ↦ absurd (
                      omega (
                        arith,
                        stronger,
                        ap rank (
                            tier_of source_hash legacy _ _ (at_test _ hash (past_test _ no_run h))),
                      ))
                  | inr no_hash ↦ both_fail _ _ _ _ no_hash
                ]
        ]
  strongest_first allow legacy new c h filename stronger =
      elim (Bool-cases
        (truthy (or_empty legacy.producer_run_id) && truthy (or_empty new.producer_run_id))) [
          | inl run ↦
              absurd (
                omega
                  (arith, stronger, ap rank (tier_of producer_run legacy _ _ (at_test _ run h))))
          | inr no_run ↦
              elim (Bool-cases
                (truthy (or_empty legacy.source_sha256) && truthy (or_empty new.source_sha256))) [
                  | inl hash ↦ absurd (
                      omega (
                        arith,
                        stronger,
                        ap rank (
                            tier_of source_hash legacy _ _ (at_test _ hash (past_test _ no_run h))),
                      ))
                  | inr no_hash ↦
                      elim (Bool-cases (
                        truthy (or_empty legacy.source_filename)
                        && truthy (or_empty new.source_filename)
                        && truthy (or_empty legacy.source_system)
                        && truthy (or_empty new.source_system))) [
                          | inl name ↦ absurd (
                              omega (
                                arith,
                                stronger,
                                ap rank (
                                    tier_of filename legacy _ _ (
                                      at_test _ name (past_test _ no_hash (past_test _ no_run h)))),
                              ))
                          | inr no_name ↦
                              elim (four_apart (truthy (or_empty legacy.source_filename))
                                (truthy (or_empty new.source_filename))
                                (truthy (or_empty legacy.source_system))
                                (truthy (or_empty new.source_system)) no_name) [
                                  | inl fails ↦ inl (rw fails)
                                  | inr fails ↦ inr (rw fails)
                                ]
                        ]
                ]
        ]
  strongest_first allow legacy new c h business_date_only stronger =
      absurd (omega (arith, weakest c.tier, stronger))

  strongest_sym :
      (allow : Bool) (legacy new : Evidence)
      → legacy.feed ≡ new.feed
      → legacy.business_date ≡ new.business_date
      → strongest digest isoformat lower allow legacy new
        ≡ strongest digest isoformat lower allow new legacy
  unfolding strongest
  strongest_sym allow legacy new p q =
      let alike : (tier : Tier) (parts : List String)
          → on_tier digest isoformat lower tier legacy parts
            ≡ on_tier digest isoformat lower tier new parts =
        λ tier parts. rw (p, q) in
      if_cong
        (both_sym (truthy (or_empty legacy.producer_run_id))
          (truthy (or_empty new.producer_run_id)))
        (same_sym (or_empty legacy.producer_run_id) (or_empty new.producer_run_id)
          (λ s. on_tier digest isoformat lower producer_run legacy (s ∷ []))
          (λ s. on_tier digest isoformat lower producer_run new (s ∷ []))
          (λ s. alike producer_run (s ∷ [])))
        (if_cong
          (both_sym (truthy (or_empty legacy.source_sha256)) (truthy (or_empty new.source_sha256)))
          (same_sym (lower (or_empty legacy.source_sha256)) (lower (or_empty new.source_sha256))
            (λ s. on_tier digest isoformat lower source_hash legacy (s ∷ []))
            (λ s. on_tier digest isoformat lower source_hash new (s ∷ []))
            (λ s. alike source_hash (s ∷ [])))
          (if_cong
            (four_sym (truthy (or_empty legacy.source_filename))
              (truthy (or_empty new.source_filename)) (truthy (or_empty legacy.source_system))
              (truthy (or_empty new.source_system)))
            (same_pair_sym (or_empty legacy.source_filename) (or_empty new.source_filename)
              (or_empty legacy.source_system) (or_empty new.source_system)
              (λ s t. on_tier digest isoformat lower filename legacy (s ∷ t ∷ []))
              (λ s t. on_tier digest isoformat lower filename new (s ∷ t ∷ []))
              (λ s t. alike filename (s ∷ t ∷ [])))
            (ap (λ found. if allow then some found else none) (alike business_date_only []))))

  -- Both sides pair alike: exchanging the two sides' evidence gives the same correlation, with the
  -- same key, the same refusal to correlate, or the same caller bug.
  pub correlate_sym :
      (allow : Bool) (legacy new : Evidence)
      → correlate digest isoformat lower allow legacy new
        ≡ correlate digest isoformat lower allow new legacy
  unfolding correlate
  correlate_sym allow legacy new = ground (arith, strongest_sym allow legacy new)

  -- A correlation rests on the strongest tier that both sides supply, and never falls through a
  -- disagreement: the sides have one feed and one business date, supply the same content on the
  -- correlation's tier, of which its key is the digest, and on no stronger tier do both supply
  -- anything. The business date alone is enough only where the caller has opted in.
  pub correlate_rests :
      (allow : Bool) (legacy new : Evidence) (c : Correlation)
      → correlate digest isoformat lower allow legacy new ≡ ok (some c)
      → (legacy.feed ≡ new.feed)
        × (legacy.business_date ≡ new.business_date)
        × ((parts : List String) × (offered lower c.tier legacy ≡ some parts)
            × (offered lower c.tier new ≡ some parts)
            × (c.key
                ≡ correlation_key digest isoformat lower c.tier legacy.feed legacy.business_date
                    parts))
        × (c.tier ≡ business_date_only → allow ≡ true)
        × ((t : Tier)
            → rank t < rank c.tier
            → (offered lower t legacy ≡ none) ⊎ (offered lower t new ≡ none))
  unfolding correlate
  correlate_rests allow legacy new c h =
      let paired : strongest digest isoformat lower allow legacy new ≡ some c = ground arith in
      (
        ground arith,
        ground arith,
        strongest_agrees allow legacy new c paired,
        strongest_opted allow legacy new c paired,
        strongest_first allow legacy new c paired,
      )
