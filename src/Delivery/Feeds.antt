-- ===== src/Delivery/Feeds.antt =====
-- The feed of a transport, which `resolve_transport_feed` of reporting_platform/ingest/delivery.py
-- resolves.
use reporting_platform_local.Common.{
  Bool, true, false, some, List, [], ◌∷◌, filter, values, Dict, lookup, String, ok, string_eq,
  option_eq, ◌≡◌, refl, sym, ap, subst, arith, Listed, inl, inr, Bool-cases,
}
use reporting_platform_local.Transport.Document.{Transport}
use reporting_platform_local.Delivery.Identity.{
  Feed, exactly_one, claims_transport, resolve_transport_feed,
}

kept :
    (p : Feed → Bool) (f : Feed) (fs : List Feed) → p f ≡ true → filter p (f ∷ fs) ≡ f ∷ filter p fs
kept p f fs h = rw h

dropped :
    (p : Feed → Bool) (f : Feed) (fs : List Feed) → p f ≡ false → filter p (f ∷ fs) ≡ filter p fs
dropped p f fs h = rw h

the_one : (f g : Feed) → Listed f (g ∷ []) → f ≡ g
the_one f g (inl e) = e
the_one f g (inr l) = absurd l

Listed-filter :
    (p : Feed → Bool) (fs : List Feed) (f : Feed)
    → Listed f fs
    → p f ≡ true
    → Listed f (filter p fs)
Listed-filter p [] f l h = absurd l
Listed-filter p (g ∷ fs) f (inl e) h = elim (Bool-cases (p g)) [
  | inl k ↦ subst (Listed f) (sym (kept p g fs k)) (inl e)
  | inr k ↦ absurd (ground (arith, k, h, ap p e))
]
Listed-filter p (g ∷ fs) f (inr l) h =
    let rest = Listed-filter p fs f l h in
    elim (Bool-cases (p g)) [
      | inl k ↦ subst (Listed f) (sym (kept p g fs k)) (inr rest)
      | inr k ↦ subst (Listed f) (sym (dropped p g fs k)) rest
    ]

Listed-filtered :
    (p : Feed → Bool) (fs : List Feed) (f : Feed)
    → Listed f (filter p fs)
    → Listed f fs × (p f ≡ true)
Listed-filtered p [] f l = absurd l
Listed-filtered p (g ∷ fs) f l = elim (Bool-cases (p g)) [
  | inl k ↦ elim (subst (Listed f) (kept p g fs k) l) [
    | inl e ↦ (inl e, subst (λ g. p g ≡ true) (sym e) k)
    | inr m ↦ let (n, q) = Listed-filtered p fs f m in (inr n, q)
  ]
  | inr k ↦
      let (n, q) = Listed-filtered p fs f (subst (Listed f) (dropped p g fs k) l) in (inr n, q)
]

exactly_one-single : (fs : List Feed) (f : Feed) → exactly_one fs ≡ ok f → fs ≡ f ∷ []
exactly_one-single [] f h = cc
exactly_one-single (g ∷ []) f h = ground (arith, h)
exactly_one-single (g ∷ (k ∷ fs)) f h = cc

-- The feed that a transport resolves to is registered and has the transport's external identifier for
-- its source, and no other registered feed has it.
pub resolve_transport_feed_unique :
    (transport : Transport) (registry : Dict String Feed) (feed : Feed)
    → resolve_transport_feed transport registry ≡ ok feed
    → Listed feed (values registry)
      × (lookup transport.source feed.source_identifiers ≡ some transport.legacy_feed_id)
      × ((other : Feed)
          → Listed other (values registry)
          → lookup transport.source other.source_identifiers ≡ some transport.legacy_feed_id
          → other ≡ feed)
unfolding resolve_transport_feed
resolve_transport_feed_unique transport registry feed h =
    let only = exactly_one-single (filter (claims_transport transport) (values registry)) feed h in
    let (listed, claims) =
      Listed-filtered (claims_transport transport) (values registry) feed
        (subst (Listed feed) (sym only) (inl refl)) in
    (
      listed,
      ground (arith, claims),
      λ other there k. the_one other feed (
          subst (Listed other) only (
            Listed-filter (claims_transport transport) (values registry) other there
              (ground (arith, k)))),
    )
