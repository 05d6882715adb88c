-- ===== src/Delivery/Resolved.antt =====
-- The identity that `resolve_business_identity` of reporting_platform/ingest/delivery.py resolves.
use reporting_platform_local.Common.{
  Bool, true, false, Option, none, some, List, [], ◌∷◌, contains, keys, String, Result, ok,
  first_step, refuse_if, Date, string_eq, ◌≡◌, refl, ap, subst, arith, Listed, ◌⊎◌, inl, inr,
}
use reporting_platform_local.Filenames.Render.{Python}
use reporting_platform_local.Transport.Parse.{TransportFile}
use reporting_platform_local.Transport.Document.{Transport}
use reporting_platform_local.Delivery.Control.{Control, Readers}
use reporting_platform_local.Delivery.Values.{Value, value_eq}
use reporting_platform_local.Delivery.Identity.{
  DeliveryError, identity_error, Feed, Claim, Collected, by_source, check_field, Selected, select,
  ResolvedIdentity,
}
use reporting_platform_local.Delivery.Resolve.{
  require_date, check_assertions, asserted, decide, collect, with_role, is_empty, configured,
  read_control, read_filenames, resolve_business_identity,
}
use reporting_platform_local.Delivery.Agreement.{check_field-agrees, select-none}

-- All the configured evidence for a field says so
abbrev pub IsAgreed : Collected → String → List String → Value → Type 0
IsAgreed collected field sources v =
    (source : String)
    → Listed source sources
    → (w : Value) → contains (keys (by_source collected field source)) w ≡ true
    → w ≡ v

-- The version that has been resolved: where there is none, no configured source has evidence of one
abbrev pub IsVersion : Collected → List String → Option Selected → Type 0
IsVersion collected sources none =
    (source : String) → Listed source sources → by_source collected "file_version" source ≡ []
IsVersion collected sources (some chosen) = IsAgreed collected "file_version" sources chosen.value

require_date-some : (o : Option Selected) (s : Selected) → require_date o ≡ ok s → o ≡ some s
require_date-some none s h = cc
require_date-some (some t) s h = ground (arith, h)

IsVersion-agrees :
    (collected : Collected) (sources : List String) (o : Option Selected)
    → check_field (by_source collected "file_version") sources ≡ ok tt
    → select (by_source collected "file_version") sources ≡ o
    → IsVersion collected sources o
IsVersion-agrees collected sources none h e =
    λ source l. select-none (by_source collected "file_version") sources source e l
IsVersion-agrees collected sources (some chosen) h e =
    check_field-agrees (by_source collected "file_version") sources chosen h e

decide-agrees :
    (isoformat : Date → String) (transport : Transport) (sources : List String)
    (collected : Collected) (r : ResolvedIdentity)
    → decide isoformat transport sources collected ≡ ok r
    → (select (by_source collected "business_date") sources ≡ some r.business_date)
      × IsAgreed collected "business_date" sources r.business_date.value
      × (select (by_source collected "file_version") sources ≡ r.file_version)
      × IsVersion collected sources r.file_version
unfolding decide
decide-agrees isoformat transport sources collected r h =
    let (_, dates, h1) =
      first_step (check_field (by_source collected "business_date") sources) _ h in
    let (_, versions, h2) =
      first_step (check_field (by_source collected "file_version") sources) _ h1 in
    let (selected, found, h3) =
      first_step (require_date (select (by_source collected "business_date") sources)) _ h2 in
    let (_, _, h4) = first_step (check_assertions collected.claims asserted) _ h3 in
    let date : selected ≡ r.business_date = ground (arith, h4) in
    let version : select (by_source collected "file_version") sources ≡ r.file_version =
      ground (arith, h4) in
    let chosen =
      require_date-some (select (by_source collected "business_date") sources) selected found in
    (
      subst (λ s. select (by_source collected "business_date") sources ≡ some s) date chosen,
      subst (λ (s : Selected). IsAgreed collected "business_date" sources s.value) date
          (check_field-agrees (by_source collected "business_date") sources selected dates chosen),
      version,
      IsVersion-agrees collected sources r.file_version versions version,
    )

module _ (python : Python) (readers : Readers) (isoformat : Date → String)
    (read_text : TransportFile → Result DeliveryError String)
    (names_control : String → String → String → Bool) where
  -- A resolved identity agrees with all the evidence: the date and the version are those of the first
  -- configured source which has any, whatever a configured source says of either is what has been
  -- resolved, and where no version has been resolved no configured source says one.
  pub resolve_business_identity-agrees :
      (transport : Transport) (feed : Feed) (r : ResolvedIdentity)
      → resolve_business_identity python readers isoformat read_text names_control transport feed
        ≡ ok r
      → (collected : Collected) × (collect python readers isoformat read_text names_control
            transport feed
          ≡ ok collected)
        × (select (by_source collected "business_date") feed.delivery_identity
            ≡ some r.business_date)
        × IsAgreed collected "business_date" feed.delivery_identity r.business_date.value
        × (select (by_source collected "file_version") feed.delivery_identity ≡ r.file_version)
        × IsVersion collected feed.delivery_identity r.file_version
  unfolding resolve_business_identity
  resolve_business_identity-agrees transport feed r h =
      let (collected, read, decided) =
        first_step (collect python readers isoformat read_text names_control transport feed) _ h in
      let (selected, dates, version, versions) =
        decide-agrees isoformat transport feed.delivery_identity collected r decided in
      (collected, read, selected, dates, version, versions)

  read_control-required :
      (o : Option Control) (fields : List String) (transport : Transport) (claims : List Claim)
      → read_control python readers isoformat read_text names_control o fields transport ≡ ok claims
      → (o ≡ none) ⊎ ((is_empty fields ≡ true) ⊎ (is_empty (with_role "control" transport) ≡ false))
  read_control-required none fields transport claims h = inl refl
  read_control-required (some control) [] transport claims h = inr (inl refl)
  read_control-required (some control) (field ∷ fields) transport claims h =
      let (_, there, _) =
        first_step (refuse_if (is_empty (with_role "control" transport)) identity_error) _ h in
      inr (inr (ground (arith, there)))

  -- A feed that declares fields of a control file is not resolved without one: if an identity has been
  -- resolved, either the feed configures no field or the transport has a control file.
  pub resolve_business_identity-required :
      (transport : Transport) (feed : Feed) (r : ResolvedIdentity)
      → resolve_business_identity python readers isoformat read_text names_control transport feed
        ≡ ok r
      → (is_empty (configured feed.control) ≡ true)
        ⊎ (is_empty (with_role "control" transport) ≡ false)
  unfolding resolve_business_identity collect
  resolve_business_identity-required transport feed r h =
      let (collected, read, _) =
        first_step (collect python readers isoformat read_text names_control transport feed) _ h in
      let (named, _, rest) =
        first_step
          (read_filenames python readers isoformat read_text names_control
            (contains feed.delivery_identity "filename") feed transport)
          _ read in
      let (claims, control, _) =
        first_step
          (read_control python readers isoformat read_text names_control feed.control
            (configured feed.control) transport)
          _ rest in
      elim (read_control-required feed.control (configured feed.control) transport claims control) [
        | inl e ↦ inl (ap (λ o. is_empty (configured o)) e)
        | inr (inl e) ↦ inl e
        | inr (inr e) ↦ inr e
      ]
