-- ===== src/Transport/RoundTrip.antt =====
-- The completion marker of an accepted transport is accepted as that transport.
use reporting_platform_local.Common.{
  ℕ, Option, none, some, [], lookup, Dict, String, ◌==◌, Result, ok, err, Date, string_eq, nat_eq,
  text_order, ◌≡◌, refl, sym, ◌∙◌, subst, arith, first_step, Result-cases, inl, inr, pos, negsuc,
  ◌⊎◌, if◌then◌else◌, ℕ_discrete,
}
use reporting_platform_local.Transport.Paths.{TransportError, contract_error}
use reporting_platform_local.Transport.Document.{
  Member, Document, members, not_object, Instants, Transport, as_dict, sort_members, insert_member,
  unique_object, unique_members, serialize_transport,
}
use reporting_platform_local.Transport.Marker.{
  required_text, version_of, parse_v1, parse_v2, parse_object_of, parse_transport,
}
use reporting_platform_local.Transport.Canonical.{
  required_text-IsTrimmed, IsLower, IsInstants, required_text-IsTrimmed,
}
use reporting_platform_local.Transport.Written.{
  with_version, written, unique-written_v1, unique-written_v2,
}
use reporting_platform_local.Transport.Versions.{parse_v1-IsVersion1, parse_v2-IsVersion2}
use reporting_platform_local.Transport.Rewritten.{
  optional_text-IsTrimmedRun, reparse_v1, reparse_v2,
}

-- A text that `json.dumps` writes is read back by `json.loads`, member for member.
pub record IsJson {Body : Type 0} (loads : Body → Option Document)
    (dumps : Dict String Member → Body) : Type 0 where
  pub read : (d : Dict String Member) → loads (dumps d) ≡ some (members d)

version_of_two :
    (n : ℕ) (first second : Result TransportError Transport) (t : Transport)
    → (if n == 1 then first else if n == 2 then second else err contract_error) ≡ ok t
    → ((n ≡ 1) × (first ≡ ok t)) ⊎ ((n ≡ 2) × (second ≡ ok t))
version_of_two n first second t h = ground (arith, h)

module _ (instants : Instants) (lower : String → String) (date_of : String → Option Date)
    (text_of_date : Date → String) where
  pub parse_object_of-cases :
      (raw : Dict String Member) (marker_key : String) (prefix : Option String) (t : Transport)
      → parse_object_of instants lower date_of text_of_date raw marker_key prefix ≡ ok t
      → (parse_v1 instants lower date_of text_of_date raw marker_key prefix ≡ ok t)
        ⊎ (parse_v2 instants lower date_of text_of_date raw marker_key prefix ≡ ok t)
  unfolding parse_object_of
  parse_object_of-cases raw marker_key prefix t h =
      elim (Result-cases (version_of (lookup "transport_contract_version" raw))) [
        | inr (fault, e) ↦ absurd (ground (arith, h, e))
        | inl (pos n, e) ↦ ground (arith, h, e)
        | inl (negsuc n, e) ↦ absurd (ground (arith, h, e))
      ]

  -- The version that is written decides how a document is parsed.
  parse_object_of_v1 :
      (t : Transport) (run : Option String) (marker_key : String) (prefix : Option String)
      → let u = with_version 1 run none none t in
        parse_object_of instants lower date_of text_of_date (written instants u) marker_key prefix
        ≡ parse_v1 instants lower date_of text_of_date (written instants u) marker_key prefix
  unfolding parse_object_of sort_members insert_member text_order string_eq nat_eq ℕ_discrete
      as_dict lookup
  parse_object_of_v1 t none marker_key prefix = refl
  parse_object_of_v1 t (some run) marker_key prefix = refl

  parse_object_of_v2 :
      (t : Transport) (run cob_date source_system : String) (marker_key : String)
      (prefix : Option String)
      → let u = with_version 2 (some run) (some cob_date) (some source_system) t in
        parse_object_of instants lower date_of text_of_date (written instants u) marker_key prefix
        ≡ parse_v2 instants lower date_of text_of_date (written instants u) marker_key prefix
  unfolding parse_object_of sort_members insert_member text_order string_eq nat_eq ℕ_discrete
      as_dict lookup
  parse_object_of_v2 t run cob_date source_system marker_key prefix = refl

  module _ {Body : Type 0} (dates : IsInstants instants) (digests : IsLower lower)
      (loads : Body → Option Document) (dumps : Dict String Member → Body)
      (json : IsJson loads dumps) where
    parse_transport_again :
        (raw : Dict String Member) (marker_key : String) (prefix : Option String) (t : Transport)
        → (unique_members raw ≡ ok tt) × (unique_object [] raw ≡ ok raw)
        → parse_object_of instants lower date_of text_of_date raw marker_key prefix ≡ ok t
        → parse_transport instants lower date_of text_of_date (loads (dumps raw)) marker_key prefix
          ≡ ok t
    unfolding parse_transport
    parse_transport_again raw marker_key prefix t (members_apart, keys_apart) h =
        rw (json.read raw, members_apart, keys_apart, h)

    abbrev IsReread : String → Option String → Transport → Type 0
    IsReread marker_key prefix t =
        parse_transport instants lower date_of text_of_date
          (loads (serialize_transport instants dumps t)) marker_key prefix
        ≡ ok t

    parse_v1-IsReread :
        (marker_key : String) (prefix : Option String) (t : Transport) (raw : Dict String Member)
        → parse_v1 instants lower date_of text_of_date raw marker_key prefix ≡ ok t
        → IsReread marker_key prefix t
    unfolding serialize_transport
    parse_v1-IsReread marker_key prefix t raw h =
        let (valid, key, (version, _, no_date, no_system, run_read, source, legacy, files)) =
          parse_v1-IsVersion1 instants lower date_of text_of_date raw marker_key prefix t h in
        let run = t.producer_run_id in
        let u = with_version 1 run none none t in
        let same : u ≡ t =
          λ i. with_version (sym version i) run (sym no_date i) (sym no_system i) t in
        let trimmed = optional_text-IsTrimmedRun raw run run_read in
        subst (IsReread marker_key prefix) same (
          parse_transport_again (written instants u) marker_key prefix u
            (unique-written_v1 instants t run)
            (parse_object_of_v1 t run marker_key prefix
              ∙ reparse_v1 instants lower date_of text_of_date dates digests t run marker_key prefix
                  trimmed (valid, key, (refl, refl, refl, refl, refl, source, legacy, files))))

    parse_v2-IsReread :
        (marker_key : String) (prefix : Option String) (t : Transport) (raw : Dict String Member)
        → parse_v2 instants lower date_of text_of_date raw marker_key prefix ≡ ok t
        → IsReread marker_key prefix t
    unfolding serialize_transport
    parse_v2-IsReread marker_key prefix t raw h =
        let (
          cob_date,
          source_system,
          dated,
          from,
          (id, valid),
          is_date,
          is_system,
          key,
          (version, _, _, _, run_read, source, legacy, files),
        ) =
          parse_v2-IsVersion2 instants lower date_of text_of_date raw marker_key prefix t h in
        let (run, is_run, last) =
          first_step (required_text "producer_run_id" raw) (λ value. ok (some value)) run_read in
        let ran : t.producer_run_id ≡ some run = ground (arith, last) in
        let u = with_version 2 (some run) (some cob_date) (some source_system) t in
        let same : u ≡ t =
          λ i. with_version (sym version i) (sym ran i) (sym dated i) (sym from i) t in
        subst (IsReread marker_key prefix) same (
          parse_transport_again (written instants u) marker_key prefix u
            (unique-written_v2 instants t run cob_date source_system)
            (parse_object_of_v2 t run cob_date source_system marker_key prefix
              ∙ reparse_v2 instants lower date_of text_of_date dates digests t run cob_date
                  source_system marker_key prefix
                  (required_text-IsTrimmed "producer_run_id" raw run is_run) id valid is_date
                  is_system key (refl, refl, refl, refl, refl, source, legacy, files)))

    -- The completion marker that is written of an accepted transport, of either version, is
    -- accepted again at the same key, as the same transport: given that `json.loads` reads what
    -- `json.dumps` writes, that an instant is read back from its text, and that `str.lower` of a
    -- digest is a digest, which it leaves alone.
    pub parse_transport-serialize_transport :
        (document : Option Document) (marker_key : String) (prefix : Option String) (t : Transport)
        → parse_transport instants lower date_of text_of_date document marker_key prefix ≡ ok t
        → parse_transport instants lower date_of text_of_date
            (loads (serialize_transport instants dumps t))
            marker_key
            prefix
          ≡ ok t
    unfolding parse_transport
    parse_transport-serialize_transport none marker_key prefix t h = cc
    parse_transport-serialize_transport (some not_object) marker_key prefix t h = cc
    parse_transport-serialize_transport (some (members pairs)) marker_key prefix t h =
        let (_, _, h) = first_step (unique_members pairs) _ h in
        let (raw, _, h) = first_step (unique_object [] pairs) _ h in
        elim (parse_object_of-cases raw marker_key prefix t h) [
          | inl e ↦ parse_v1-IsReread marker_key prefix t raw e
          | inr e ↦ parse_v2-IsReread marker_key prefix t raw e
        ]
