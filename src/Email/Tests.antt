-- ===== src/Email/Tests.antt =====
-- Tests and instances of the email code of apps/api/email_routes.py, apps/worker/email_alerts.py and
-- packages/shared/email_preferences.py at concrete rows.
use meraipo.Prelude.{
  ℕ, ◌≤◌, ◌≡◌, refl, ◌↔◌, ◌⊎◌, true, false, none, some, [], ◌∷◌, arith, is_some, length,
}
use meraipo.Email.Rows.{
  Delivery, Subscriber, Status, verify, test, pending, sending, retry, delivered, bounced,
  light_green, white, gold, Kind, Profile, EventKind, delivery, bounce, active, is_sendable,
}
use meraipo.Email.Bands.{rupees, band_for_percent, matching_preferences}
use meraipo.Email.Bands.Audience.{chooses, Above, threshold, matching_preferences_iff}
use meraipo.Email.Events.{Event, Inbox, done, ingest_event}
use meraipo.Email.Events.Ranks.{IsLasting, ingest_event_status, ingest_event-suppresses_iff}
use meraipo.Email.Review.{World, Campaign, digest}
use meraipo.Email.Sending.{sent, send_one}
use meraipo.Email.Sending.Calls.{IsCleared, send_one_called}
use meraipo.Email.Race.{
  held, waiting, answered, node, Reaches, here, step, claims, calls, answers, by_identifier,
}
use meraipo.Email.Race.Steps.{may_resend}
use meraipo.Email.Race.Once.{sent_at_most_once}
use meraipo.Email.Consent.{Mailbox, Link, Signup, Reply, confirm, do_unsubscribe, subscribe}
use meraipo.Email.Consent.Active.{Confirms, confirm_activates}
use meraipo.Email.Consent.Replay.{confirm_once}

abbrev row : Delivery
row = record {
  kind = verify;
  status = pending;
  attempt_count = 0;
  retry_at = none;
  message_id = none;
  requested_profile = some (record { contact = 5; gmp_band = gold });
  accepted_at = none;
  delivered_at = none;
  opened_at = none;
  unsubscribed_at = none;
  last_event = none;
  last_event_at = none;
  error_code = none;
  created_at = 1000;
}

abbrev subscriber : Subscriber
subscriber = record {
  contact = none;
  gmp_band = some light_green;
  consent_at = 1000;
  verified_at = none;
  unsubscribed_at = none;
  suppressed_at = none;
}

matching_preferences_iff_example :
    (chooses light_green (matching_preferences (band_for_percent (some (rupees 30, 100)))) ≡ true)
    ↔ Above (threshold light_green) (rupees 30) 100
matching_preferences_iff_example =
    matching_preferences_iff light_green (rupees 30) 100 (omega arith)

-- A permanent bounce at 2000 of the row's message 7, and a delivery.
abbrev bounced_event : Event
bounced_event = record {
  provider_id = 1;
  message_id = some 7;
  kind = bounce;
  transient = false;
  detail_timestamp = some (some 2000);
  mail_timestamp = some 1900;
}

abbrev sent_row : Delivery
sent_row = record row { status = sending; attempt_count = 1 }

abbrev inbox : Inbox
inbox = record { row = sent_row; subscriber = subscriber; seen = [] }

stored : (ingest_event true 2100 bounced_event true inbox).1 ≡ done
unfolding ingest_event
stored = refl

ingest_event_status_example :
    (ingest_event true 2100 bounced_event true inbox).0.row.status ≡ bounced
unfolding ingest_event
ingest_event_status_example = ingest_event_status true 2100 bounced_event true inbox stored

abbrev suppressed_inbox : Inbox
suppressed_inbox = record inbox { subscriber = record subscriber { suppressed_at = some 1500 } }

ingest_event-suppresses_iff_example :
    (is_some (ingest_event true 2100 bounced_event true inbox).0.subscriber.suppressed_at ≡ true)
    ↔ IsLasting bounced_event
ingest_event-suppresses_iff_example =
    ingest_event-suppresses_iff true 2100 bounced_event true inbox stored refl

abbrev world : World
world = record {
  approved = false;
  checks_ready = true;
  sending_enabled = true;
  feature_enabled = true;
  today = 20;
  hour = 9;
  send_hour = 9;
  catchup_hours = 3;
  max_attempts = 5;
  now = 1100;
  subscriber = subscriber;
  campaign = digest 20 white [];
}

called_once : (send_one world 3 (sent 7) row).1 ≡ 1
unfolding send_one meraipo.Email.Rows.token_expired
called_once = refl

send_one_called_example :
    ((send_one world 3 (sent 7) row).1 ≡ 0)
    ⊎ (((send_one world 3 (sent 7) row).1 ≡ 1) × IsCleared world row)
send_one_called_example = send_one_called world 3 (sent 7) row

abbrev accepted_count : ℕ
accepted_count = 1

claimed_row : meraipo.Email.Review.claim 1100 row ≡ some sent_row
unfolding meraipo.Email.Review.claim
claimed_row = refl

reviewed_row : meraipo.Email.Review.review world sent_row ≡ meraipo.Email.Review.go
unfolding meraipo.Email.Review.review meraipo.Email.Rows.token_expired
reviewed_row = refl

-- A claim, the call of the provider, and its answer.
sent_path : Reaches 5 (node row [] 0) (node sent_row (answered 1 (sent 7) ∷ []) accepted_count)
sent_path =
    step (node sent_row (waiting 1 ∷ []) 0) _
      (step (node sent_row (held 1 ∷ []) 0) _
        (step (node row [] 0) _ here (claims 1100 row sent_row [] 0 claimed_row))
        (calls world sent_row [] [] 1 0 reviewed_row))
      (answers (sent 7) 1 sent_row [] [] 1 0 (by_identifier 7))

sent_at_most_once_example :
    (accepted_count ≤ 1)
    × ((length (answered 1 (sent 7) ∷ []) ≤ 1)
        × ((sent_row.attempt_count ≤ 5)
            × (accepted_count ≡ 1 → may_resend sent_row.status ≡ false)))
sent_at_most_once_example =
    sent_at_most_once 5 row sent_row (answered 1 (sent 7) ∷ []) accepted_count refl refl refl
      sent_path

abbrev box : Mailbox
box = record { subscriber = subscriber; links = record { hash = 9; row = row } ∷ [] }

abbrev confirmed_box : Mailbox
confirmed_box = (confirm 1100 90 9 box).0

turned_on : active (confirm 1100 90 9 box).0.subscriber ≡ true
unfolding confirm meraipo.Email.Consent.action_row active meraipo.Email.Rows.token_expired
turned_on = refl

turned_off : active subscriber ≡ false
unfolding active
turned_off = refl

confirmed_first : (confirm 1100 90 9 box).1 ≡ Reply.done
unfolding confirm meraipo.Email.Consent.action_row meraipo.Email.Rows.token_expired
confirmed_first = refl

confirm_activates_example : Confirms 1100 90 9 box
confirm_activates_example = confirm_activates 1100 90 9 box turned_off turned_on

confirm_once_example :
    (confirm 1300 90 9 (do_unsubscribe 1200 90 9 (confirm 1100 90 9 box).0).0).0
    ≡ (do_unsubscribe 1200 90 9 (confirm 1100 90 9 box).0).0
confirm_once_example = confirm_once 1100 1200 1300 90 9 9 box confirmed_first

unsubscribed_once : (do_unsubscribe 1200 90 9 box).1 ≡ Reply.done
unfolding do_unsubscribe meraipo.Email.Consent.action_row
unsubscribed_once = refl

abbrev signup : Signup
signup = record {
  feature_enabled = true;
  configured = true;
  same_origin = true;
  profile = some (record { contact = 6; gmp_band = white });
  within_limits = true;
  new_hash = 10;
}

abbrev resubscribed : Mailbox
resubscribed = record box {
  links =
      record {
        hash = 9;
        row = record row { requested_profile = some (record { contact = 6; gmp_band = white }) };
      }
      ∷ [];
}

signed_up : (subscribe 1200 signup (some box)).0 ≡ some resubscribed
unfolding subscribe
signed_up = refl
