-- ===== src/Email/Sending.antt =====
-- The second half of `send_one`, and what else moves a delivery in the outbox: `maintain_outbox` of
-- apps/worker/email_alerts.py and `retry` of apps/api/email_admin.py.
pub mod Calls
use meraipo.Prelude.{
  ℕ, ◌+◌, ◌-◌, ◌*◌, ◌^◌, Bool, true, false, not, ◌&&◌, ◌||◌, Option, none, some, List, [], ◌∷◌, ltb,
  leb, ◌==◌, if◌then◌else◌, or_else, min, max, is_some, any_of, all_of, opt_is, holds_of,
}
use meraipo.Ipo.{Ipo, IpoDates, Guide, eligible_listing, eligible_opening}
use meraipo.Email.Rows.{
  Kind, verify, alert, test, Status, pending, sending, retry, uncertain, accepted, failed,
  cancelled, expired, suppressed, Band, ErrorCode, ses_throttled, ses_permanent_rejection,
  ses_access_denied, ses_message_rejected, ses_mail_from_unverified, ses_resource_not_found,
  ses_sending_paused, ses_account_suspended, ses_send_outcome_unknown, send_outcome_unknown,
  digest_no_longer_eligible, schedule_no_longer_eligible, gmp_band_changed, Delivery, Subscriber,
  active, token_expired, is_sendable, is_sending, is_open_ended,
}
use meraipo.Email.Bands.{index, matching_preferences}
use meraipo.Email.Review.{World, may_claim, claim, Review, stop, go, review}

-- The error codes of the provider's client library that the code tells apart.
pub data ClientCode : Type 0 where
  throttling throttling_exception too_many_requests_exception limit_exceeded_exception
        access_denied_exception access_denied message_rejected mail_from_domain_not_verified
        not_found sending_paused account_suspended other_code :
      ClientCode

-- What the provider's call gives: a message identifier, an error of its client with the HTTP
-- status, or any other exception.
pub data Answer : Type 0 where
  sent : ℕ → Answer
  client_error : ClientCode → ℕ → Answer
  no_answer : Answer

abbrev pub throttles : ClientCode → Bool
throttles throttling = true
throttles throttling_exception = true
throttles too_many_requests_exception = true
throttles limit_exceeded_exception = true
throttles _ = false

abbrev pub safe_code : ClientCode → ErrorCode
safe_code throttling = ses_throttled
safe_code throttling_exception = ses_throttled
safe_code too_many_requests_exception = ses_throttled
safe_code limit_exceeded_exception = ses_throttled
safe_code access_denied_exception = ses_access_denied
safe_code access_denied = ses_access_denied
safe_code message_rejected = ses_message_rejected
safe_code mail_from_domain_not_verified = ses_mail_from_unverified
safe_code not_found = ses_resource_not_found
safe_code sending_paused = ses_sending_paused
safe_code account_suspended = ses_account_suspended
safe_code other_code = ses_permanent_rejection

-- `min(3600, 30 * 2**attempt_count)`
abbrev pub backoff : ℕ → ℕ
backoff attempts = min 3600 (30 * 2 ^ attempts)

-- The update after an accepted call; the row may have moved on since it was claimed.
settle_sent : ℕ → ℕ → Delivery → Delivery
settle_sent now message row = record row {
  message_id = some message;
  accepted_at = or_else row.accepted_at (some now);
  status = if is_open_ended row.status then accepted else row.status;
  error_code = if is_open_ended row.status then none else row.error_code;
}

-- The update after a client error. `attempts` is the count of the row as it was claimed, and
-- `jitter` the random part of the delay.
settle_error : ℕ → ℕ → ℕ → ℕ → ClientCode → ℕ → Delivery → Delivery
settle_error now max_attempts jitter attempts code http row =
    let again = throttles code && ltb attempts max_attempts in
    let unsure = leb 500 http in
    if is_sending row.status
    then record row {
      status = if unsure then uncertain else if again then retry else failed;
      error_code = some (if unsure then ses_send_outcome_unknown else safe_code code);
      retry_at = if again then some (now + (backoff attempts + jitter)) else none;
    }
    else row

unfoldable pub settle : ℕ → ℕ → ℕ → ℕ → Answer → Delivery → Delivery
unfolding settle_sent settle_error
settle now max_attempts jitter attempts (sent message) row = settle_sent now message row
settle now max_attempts jitter attempts (client_error code http) row =
    settle_error now max_attempts jitter attempts code http row
settle now max_attempts jitter attempts no_answer row =
    if is_sending row.status
    then record row { status = uncertain; error_code = some ses_send_outcome_unknown }
    else row

-- The whole of `send_one` where nothing else writes the row meanwhile, with the number of calls of
-- the provider that it makes.
after_claim : World → ℕ → Answer → Delivery → Delivery × ℕ
unfolding settle review
after_claim w jitter answer row = elim (review w row) [
  | stop row' ↦ (row', 0)
  | go ↦ (settle w.now w.max_attempts jitter row.attempt_count answer row, 1)
]

unfoldable pub send_one : World → ℕ → Answer → Delivery → Delivery × ℕ
unfolding after_claim claim may_claim
send_one w jitter answer row =
    if not (may_claim w row.kind)
    then (row, 0)
    else elim (claim w.now row) [ none ↦ (row, 0) | some row' ↦ after_claim w jitter answer row' ]

-- The part of `maintain_outbox` on deliveries; `updated_at` is the time of the row's last write.
unfoldable pub expire_sending : ℕ → ℕ → Delivery → Delivery
expire_sending now updated_at row =
    if is_sending row.status && ltb (updated_at + 900) now
    then record row { status = uncertain; error_code = some send_outcome_unknown }
    else row

-- `row.error_code == "SES_THROTTLED"`
abbrev is_throttled : Option ErrorCode → Bool
is_throttled (some ses_throttled) = true
is_throttled _ = false

abbrev is_retryable : Status → Bool
is_retryable retry = true
is_retryable failed = true
is_retryable _ = false

-- The administrator's retry; `none` is the refusal.
unfoldable pub admin_retry : ℕ → ℕ → Delivery → Option Delivery
admin_retry now max_attempts row =
    if is_retryable row.status
      && is_throttled row.error_code
      && not (is_some row.accepted_at)
      && ltb row.attempt_count max_attempts
    then some (record row {
      status = retry;
      retry_at =
          some
            (max (elim row.retry_at [ none ↦ now | some t ↦ t ]) (now + backoff row.attempt_count));
    })
    else none
