-- ===== src/Email/Rows.antt =====
-- The rows that the email code reads and writes (`EmailDelivery` and `EmailSubscriber` of
-- packages/database/models.py, less the columns that no modelled code decides on). Times are seconds;
-- identifiers and hashes are numbers.
use meraipo.Prelude.{ℕ, ◌+◌, Bool, true, false, ◌&&◌, not, Option, ltb, is_some}

pub data Kind : Type 0 where
  verify alert test : Kind

pub data Status : Type 0 where
  pending sending retry uncertain accepted delayed soft_bounce delivered failed rejected bounced
        complaint suppressed cancelled expired confirmed :
      Status

-- `Delivery`, `Bounce` and so on, as the provider names them; `unknown` is any other name.
pub data EventKind : Type 0 where
  delivery bounce complaint open_event send reject delivery_delay unknown : EventKind

pub data Band : Type 0 where
  white light_green strong_green gold : Band

pub data ErrorCode : Type 0 where
  ses_state : Status → ErrorCode
  ses_throttled ses_permanent_rejection ses_access_denied ses_message_rejected
        ses_mail_from_unverified ses_resource_not_found ses_sending_paused ses_account_suspended
        ses_send_outcome_unknown send_outcome_unknown digest_no_longer_eligible
        schedule_no_longer_eligible gmp_band_changed replaced_by_daily_digest :
      ErrorCode

pub record Profile : Type 0 where
  pub contact : ℕ
  pub gmp_band : Band

pub record Delivery : Type 0 where
  pub kind : Kind
  pub status : Status
  pub attempt_count : ℕ
  pub retry_at : Option ℕ
  pub message_id : Option ℕ
  pub requested_profile : Option Profile
  pub accepted_at : Option ℕ
  pub delivered_at : Option ℕ
  pub opened_at : Option ℕ
  pub unsubscribed_at : Option ℕ
  pub last_event : Option EventKind
  pub last_event_at : Option ℕ
  pub error_code : Option ErrorCode
  pub created_at : ℕ

pub record Subscriber : Type 0 where
  pub contact : Option ℕ
  pub gmp_band : Option Band
  pub consent_at : ℕ
  pub verified_at : Option ℕ
  pub unsubscribed_at : Option ℕ
  pub suppressed_at : Option ℕ

-- `active` of packages/shared/email_alerts.py.
unfoldable pub active : Subscriber → Bool
active s = is_some s.verified_at && not (is_some s.unsubscribed_at) && not (is_some s.suppressed_at)

-- `token_expired` of packages/shared/email_alerts.py: older than 24 hours.
unfoldable pub token_expired : ℕ → Delivery → Bool
token_expired now row = ltb (row.created_at + 86400) now

-- `status in ("PENDING", "RETRY")`
abbrev pub is_sendable : Status → Bool
is_sendable pending = true
is_sendable retry = true
is_sendable _ = false

abbrev pub is_sending : Status → Bool
is_sending sending = true
is_sending _ = false

-- `status in ("SENDING", "UNCERTAIN")`
abbrev pub is_open_ended : Status → Bool
is_open_ended sending = true
is_open_ended uncertain = true
is_open_ended _ = false

abbrev pub is_confirmed : Status → Bool
is_confirmed confirmed = true
is_confirmed _ = false
