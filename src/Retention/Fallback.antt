-- ===== src/Retention/Fallback.antt =====
-- How a tag is judged when its commit time cannot be read.
use reporting_platform_local.Common.{
  ℕ, true, false, Option, none, some, String, ◌⊎◌, inl, inr, less, ok, Date, date_order, or_empty,
  ◌≡◌, refl, arith, less_trans, less_connected,
}
use reporting_platform_local.Retention.References.{Reference}
use reporting_platform_local.Retention.Sweeps.{Platform, seconds_of_years, tag_age, outlived}

module _ (platform : Platform) where
  before_of_not_after : (a b c : Date) → less b a ≡ false → less b c ≡ true → less a c ≡ true
  before_of_not_after a b c h k = ground (arith, less_trans a b c, less_connected a b)

  -- The commit time of a reference is missing or cannot be read
  abbrev pub IsUnreadable : Option String → Type 0
  IsUnreadable time = platform.commit_day (or_empty time) ≡ none

  committed_age :
      (ref : Reference) (cob_date committed : Date)
      → platform.commit_day (or_empty ref.commit_time) ≡ some committed
      → (tag_age platform ref cob_date ≡ committed) ⊎ (tag_age platform ref cob_date ≡ cob_date)
  unfolding tag_age
  committed_age ref cob_date committed e = ground (arith, e)

  unreadable_age :
      (ref : Reference) (time : Option String) (cob_date : Date)
      → (time ≡ none) ⊎ IsUnreadable time
      → tag_age platform (record ref { commit_time = time }) cob_date ≡ cob_date
  unfolding tag_age
  unreadable_age ref none cob_date unread = refl
  unreadable_age ref (some t) cob_date (inl e) = absurd (cc)
  unreadable_age ref (some t) cob_date (inr e) = ground (arith, e)

  -- The date that a tag is about expires it no later than its commit time does: a tag that was
  -- committed on or after that date, and has outlived its window, has outlived it as well where its
  -- commit time is missing, or is any text that cannot be read. So a tag with an unreadable time is
  -- the first to be deleted.
  pub fallback_expires :
      (ref : Reference) (years : ℕ) (bd : String) (cob_date committed : Date) (time : Option String)
      → platform.strptime bd ≡ some cob_date
      → platform.commit_day (or_empty ref.commit_time) ≡ some committed
      → less committed cob_date ≡ false
      → outlived platform ref years bd ≡ ok true
      → (time ≡ none) ⊎ IsUnreadable time
      → outlived platform (record ref { commit_time = time }) years bd ≡ ok true
  unfolding outlived
  fallback_expires ref years bd cob_date committed time dated readable later old unread = ground (
    arith,
    unreadable_age ref time cob_date unread,
    committed_age ref cob_date committed readable,
    before_of_not_after cob_date committed (platform.day_before (seconds_of_years years)) later,
  )
