-- ===== src/Retention/ReadySwept.antt =====
-- What the sweep of the work queue deletes.
use reporting_platform_local.Common.{
  all, Bool, true, false, ◌||◌, List, [], ◌∷◌, contains, contains-append, String, ◌==◌, less, Date,
  date_order, string_eq, Listed, ◌≡◌, ◌⊎◌, inl, inr, refl, arith, Bool-cases,
}
use reporting_platform_local.Retention.Ready.{
  Manifest, ReadyFeed, is_gone, derived_parts, classify, is_ingested, expired_parts, orphaned_keys,
  all_expired, all_orphaned, sweep_feed, sweep_ready,
}

-- A part under the feed's prefix of a manifest that is past the window, all of whose parts have
-- been ingested
abbrev pub IsExpiredPart : ReadyFeed → Date → Manifest → String → Type 0
IsExpiredPart feed cutoff manifest k =
    (is_gone feed.landed manifest.source_object ≡ false)
    × (less manifest.cob_date cutoff ≡ true)
    × (all (contains feed.ingested) manifest.parts ≡ true)
    × (contains (derived_parts feed.ready_prefix manifest.parts) k ≡ true)

-- A part under the feed's prefix of a manifest whose landing object is gone, or the manifest
abbrev pub IsOrphaned : ReadyFeed → String → Manifest → String → Type 0
IsOrphaned feed key manifest k =
    (is_gone feed.landed manifest.source_object ≡ true)
    × (contains (derived_parts feed.ready_prefix manifest.parts) k || k == key ≡ true)

expired_parts-IsExpiredPart :
    (feed : ReadyFeed) (cutoff : Date) (manifest : Manifest) (k : String)
    → contains (expired_parts (is_ingested feed manifest) (classify feed cutoff manifest)) k ≡ true
    → IsExpiredPart feed cutoff manifest k
unfolding classify is_ingested
expired_parts-IsExpiredPart feed cutoff manifest k h =
    (ground (arith, h), ground (arith, h), ground (arith, h), ground (arith, h))

orphaned_keys-IsOrphaned :
    (feed : ReadyFeed) (cutoff : Date) (key : String) (manifest : Manifest) (k : String)
    → contains
        (orphaned_keys key
          (derived_parts feed.ready_prefix manifest.parts)
          (classify feed cutoff manifest))
        k
      ≡ true
    → IsOrphaned feed key manifest k
unfolding classify
orphaned_keys-IsOrphaned feed cutoff key manifest k h =
    let both = contains-append (derived_parts feed.ready_prefix manifest.parts) (key ∷ []) k in
    (ground (arith, h), ground (arith, h, both))

all_expired-IsExpiredPart :
    (feed : ReadyFeed) (cutoff : Date) (entries : List (String × Manifest)) (k : String)
    → contains (all_expired feed cutoff entries) k ≡ true
    → (entry : String × Manifest) × Listed entry entries × IsExpiredPart feed cutoff entry.1 k
unfolding all_expired
all_expired-IsExpiredPart feed cutoff [] k h = absurd (cc)
all_expired-IsExpiredPart feed cutoff ((key, manifest) ∷ entries) k h =
    let here = expired_parts (is_ingested feed manifest) (classify feed cutoff manifest) in
    let both = contains-append here (all_expired feed cutoff entries) k in
    elim (Bool-cases (contains here k)) [
      | inl e ↦ ((key, manifest), inl refl, expired_parts-IsExpiredPart feed cutoff manifest k e)
      | inr e ↦
          let (entry, listed, expired) =
            all_expired-IsExpiredPart feed cutoff entries k (ground (arith, h, both, e)) in
          (entry, inr listed, expired)
    ]

all_orphaned-IsOrphaned :
    (feed : ReadyFeed) (cutoff : Date) (entries : List (String × Manifest)) (k : String)
    → contains (all_orphaned feed cutoff entries) k ≡ true
    → (entry : String × Manifest) × Listed entry entries × IsOrphaned feed entry.0 entry.1 k
unfolding all_orphaned
all_orphaned-IsOrphaned feed cutoff [] k h = absurd (cc)
all_orphaned-IsOrphaned feed cutoff ((key, manifest) ∷ entries) k h =
    let here =
      orphaned_keys key (derived_parts feed.ready_prefix manifest.parts)
        (classify feed cutoff manifest) in
    let both = contains-append here (all_orphaned feed cutoff entries) k in
    elim (Bool-cases (contains here k)) [
      | inl e ↦ ((key, manifest), inl refl, orphaned_keys-IsOrphaned feed cutoff key manifest k e)
      | inr e ↦
          let (entry, listed, orphaned) =
            all_orphaned-IsOrphaned feed cutoff entries k (ground (arith, h, both, e)) in
          (entry, inr listed, orphaned)
    ]

-- What the sweep may delete of a feed's queue
abbrev pub IsReclaimable : Date → ReadyFeed → String → Type 0
IsReclaimable cutoff feed k =
    (entry : String × Manifest) × Listed entry feed.manifests
    × (IsExpiredPart feed cutoff entry.1 k ⊎ IsOrphaned feed entry.0 entry.1 k)

sweep_feed-IsReclaimable :
    (dry_run : Bool) (cutoff : Date) (feed : ReadyFeed) (k : String)
    → contains (sweep_feed dry_run cutoff feed).deleted k ≡ true
    → IsReclaimable cutoff feed k
unfolding sweep_feed
sweep_feed-IsReclaimable true cutoff feed k h = absurd (cc)
sweep_feed-IsReclaimable false cutoff feed k h =
    let expired = all_expired feed cutoff feed.manifests in
    let both = contains-append expired (all_orphaned feed cutoff feed.manifests) k in
    elim (Bool-cases (contains expired k)) [
      | inl e ↦
          let (entry, listed, part) = all_expired-IsExpiredPart feed cutoff feed.manifests k e in
          (entry, listed, inl part)
      | inr e ↦
          let (entry, listed, gone) =
            all_orphaned-IsOrphaned feed cutoff feed.manifests k (ground (arith, h, both, e)) in
          (entry, listed, inr gone)
    ]

-- The sweep of the work queue deletes only what it may: each deleted key is a part under the
-- prefix of a feed, of a manifest of that feed that is past the window and all of whose parts have
-- been ingested; or it belongs to a manifest whose landing object is gone, as such a part or as
-- the manifest. So a delivery that landing still has is not deleted from the queue before it has
-- been ingested.
pub sweep_ready_deletes :
    (dry_run : Bool) (cutoff : Date) (feeds : List ReadyFeed) (k : String)
    → contains (sweep_ready dry_run cutoff feeds).0 k ≡ true
    → (feed : ReadyFeed) × Listed feed feeds × IsReclaimable cutoff feed k
unfolding sweep_ready
sweep_ready_deletes dry_run cutoff [] k h = absurd (cc)
sweep_ready_deletes dry_run cutoff (feed ∷ feeds) k h =
    let here = (sweep_feed dry_run cutoff feed).deleted in
    let both = contains-append here (sweep_ready dry_run cutoff feeds).0 k in
    elim (Bool-cases (contains here k)) [
      | inl e ↦ (feed, inl refl, sweep_feed-IsReclaimable dry_run cutoff feed k e)
      | inr e ↦
          let (found, listed, may) =
            sweep_ready_deletes dry_run cutoff feeds k (ground (arith, h, both, e)) in
          (found, inr listed, may)
    ]
