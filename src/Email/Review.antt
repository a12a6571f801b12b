-- ===== src/Email/Review.antt =====
-- The first half of `send_one` of apps/worker/email_alerts.py: the guards before a delivery is
-- claimed, the claim, and the review of the claimed row.
use meraipo.Prelude.{
  ℕ, ◌+◌, ◌-◌, Bool, true, false, not, ◌&&◌, ◌||◌, Option, none, some, List, ltb, leb, ◌==◌,
  if◌then◌else◌, min, is_some, any_of, all_of,
}
use meraipo.Ipo.{Ipo, IpoDates, Guide, eligible_listing, eligible_opening}
use meraipo.Email.Rows.{
  Kind, verify, alert, test, pending, sending, cancelled, expired, suppressed, Band,
  digest_no_longer_eligible, schedule_no_longer_eligible, gmp_band_changed, Delivery, Subscriber,
  active, token_expired, is_sendable,
}
use meraipo.Email.Bands.{index, matching_preferences}

-- One IPO of a digest as it stands now; a company that is gone or a demo makes the digest stale.
pub record Member : Type 0 where
  pub company_live : Bool
  pub ipo : Ipo
  pub dates : Option IpoDates
  pub guide : Option Guide

pub data CampaignKind : Type 0 where
  prelisting ipo_opening other_kind : CampaignKind

-- A campaign: a daily digest of a category, or the alert of one IPO with its current band.
pub data Campaign : Type 0 where
  digest : ℕ → Band → List Member → Campaign
  single : CampaignKind → ℕ → Member → Band → Campaign

-- What `send_one` reads besides the delivery and its subscriber: the switches, the Indian date and
-- hour, the configured hours and limits, and the clock in seconds.
pub record World : Type 0 where
  pub approved : Bool
  pub checks_ready : Bool
  pub sending_enabled : Bool
  pub feature_enabled : Bool
  pub today : ℕ
  pub hour : ℕ
  pub send_hour : ℕ
  pub catchup_hours : ℕ
  pub max_attempts : ℕ
  pub now : ℕ
  pub subscriber : Subscriber
  pub campaign : Campaign

-- `within_window` of packages/shared/email_alerts.py.
unfoldable pub within_window : World → Bool
within_window w = leb w.send_hour w.hour && ltb w.hour (min 24 (w.send_hour + w.catchup_hours))

abbrev pub is_band : Option Band → Band → Bool
is_band none b = false
is_band (some a) b = index a == index b

-- `digest_is_current` of packages/shared/email_digest.py.
unfoldable pub digest_is_current : World → ℕ → Band → List Member → Bool
digest_is_current w day category members =
    day == w.today
    && leb w.send_hour w.hour
    && is_band w.subscriber.gmp_band category
    && all_of (λ m. m.company_live && eligible_opening m.ipo m.dates m.guide w.today) members

-- The guards before the claim.
unfoldable pub may_claim : World → Kind → Bool
may_claim w alert =
    (w.approved || w.sending_enabled && w.checks_ready) && w.sending_enabled && w.feature_enabled
may_claim w verify = w.feature_enabled
may_claim w test = true

abbrev pub is_ready : ℕ → Option ℕ → Bool
is_ready now none = true
is_ready now (some t) = leb t now

-- The conditional update that claims a row; `none` where it changes no row.
unfoldable pub claim : ℕ → Delivery → Option Delivery
claim now row =
    if is_sendable row.status && is_ready now row.retry_at
    then some (record row { status = sending; attempt_count = row.attempt_count + 1 })
    else none

-- Whether the claimed row may be sent: it stops with the row as written, or goes on.
pub data Review : Type 0 where
  stop : Delivery → Review
  go : Review

abbrev is_prelisting : CampaignKind → Bool
is_prelisting prelisting = true
is_prelisting _ = false

abbrev is_opening : CampaignKind → Bool
is_opening ipo_opening = true
is_opening _ = false

unfoldable pub alert_is_due : World → CampaignKind → ℕ → Member → Bool
unfolding within_window
alert_is_due w kind day m =
    day == w.today
    && (is_prelisting kind
          && not (is_some w.subscriber.gmp_band)
          && within_window w
          && eligible_listing m.ipo m.dates m.guide w.today
        || is_opening kind
          && is_some w.subscriber.gmp_band
          && eligible_opening m.ipo m.dates m.guide w.today
          && leb w.send_hour w.hour)

-- `subscriber.gmp_band in matching_preferences(band)`
abbrev pub in_bands : Option Band → List Band → Bool
in_bands none bands = false
in_bands (some b) bands = any_of (λ c. index c == index b) bands

-- The branch of a campaign: the tests on an alert, which a test message passes over, but for a
-- digest, which every kind is held to.
review_campaign : World → Kind → Delivery → Campaign → Review
unfolding digest_is_current alert_is_due
review_campaign w kind row (digest day category members) =
    if digest_is_current w day category members
    then go
    else stop (record row { status = cancelled; error_code = some digest_no_longer_eligible })
review_campaign w alert row (single kind day m band) =
    if not (alert_is_due w kind day m)
    then stop (record row { status = cancelled; error_code = some schedule_no_longer_eligible })
    else if is_opening kind && not (in_bands w.subscriber.gmp_band (matching_preferences band))
    then stop (record row {
      status = pending;
      attempt_count = row.attempt_count - 1;
      retry_at = some (w.now + 600);
      error_code = some gmp_band_changed;
    })
    else go
review_campaign w _ row (single kind day m band) = go

abbrev is_alert : Kind → Bool
is_alert alert = true
is_alert _ = false

review_kind : World → Kind → Delivery → Review
unfolding review_campaign
review_kind w verify row =
    if token_expired w.now row then stop (record row { status = expired }) else go
review_kind w kind row = review_campaign w kind row w.campaign

unfoldable pub review : World → Delivery → Review
unfolding review_kind
review w row =
    if is_some w.subscriber.suppressed_at || is_alert row.kind && not (active w.subscriber)
    then stop (record row { status = suppressed })
    else review_kind w row.kind row
