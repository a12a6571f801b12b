-- ===== src/Ipo/Tests.antt =====
-- Tests and instances of packages/shared/ipo_lifecycle.py, packages/shared/email_template.py and
-- `reconcile_lifecycle` at concrete rows.
use meraipo.Prelude.{◌≡◌, refl, true, none, some, List, [], ◌∷◌}
use meraipo.Ipo.{
  RawName, Ipo, IpoDates, Guide, Row, opened, closed, upcoming, listed, listing_today,
  allotment_pending, allotment_completed, confirmed, verified, lifecycle, eligible_listing,
  after_close,
}

-- An issue open on days 100 to 103, listed on day 108, whose guide confirms allotment on day 105.
abbrev issue : Ipo
issue = record {
  raw_status = some (record { name = RawName.opened; is_upper = true });
  status = upcoming;
  lifecycle = none;
  source_provider = some 1;
}

abbrev window : IpoDates
window = record {
  open_date = some 100;
  close_date = some 103;
  allotment_date = none;
  listing_date = some 108;
}

abbrev guide : Guide
guide = record {
  schedule_status = confirmed;
  verification_status = verified;
  allotment_date = some 105;
}

days :
    (lifecycle issue (some window) (some guide) 99 ≡ upcoming)
    × (lifecycle issue (some window) (some guide) 103 ≡ opened)
    × (lifecycle issue (some window) (some guide) 104 ≡ allotment_pending)
    × (lifecycle issue (some window) (some guide) 105 ≡ allotment_completed)
    × (lifecycle issue (some window) none 105 ≡ closed)
    × (lifecycle issue (some window) (some guide) 108 ≡ listing_today)
    × (lifecycle issue (some window) (some guide) 109 ≡ listed)
unfolding lifecycle after_close
days = (refl, refl, refl, refl, refl, refl, refl)

listing_alert : eligible_listing issue (some window) (some guide) 107 ≡ true
unfolding eligible_listing
listing_alert = refl

abbrev rows : List Row
rows = record { ipo = issue; dates = some window; guide = some guide } ∷ []
