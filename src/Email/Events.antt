-- ===== src/Email/Events.antt =====
-- `ingest_event` of apps/api/email_routes.py: what a verified provider event does to a delivery.
pub mod Ranks
use meraipo.Prelude.{
  ℕ, ◌+◌, Bool, true, false, not, ◌&&◌, ◌||◌, Option, none, some, List, [], ◌∷◌, ltb, leb, ◌==◌,
  if◌then◌else◌, or_else, any_of, max,
}
use meraipo.Email.Rows.{
  Status, pending, sending, retry, uncertain, accepted, delayed, soft_bounce, delivered, failed,
  rejected, bounced, suppressed, EventKind, delivery, bounce, open_event, send, reject,
  delivery_delay, unknown, ErrorCode, ses_state, Delivery, Subscriber, is_confirmed,
}

-- An event as the provider sends it. A time is `none` where it does not parse or has no zone; the
-- detail may have no time at all.
pub record Event : Type 0 where
  pub provider_id : ℕ
  pub message_id : Option ℕ
  pub kind : EventKind
  pub transient : Bool
  pub detail_timestamp : Option (Option ℕ)
  pub mail_timestamp : Option ℕ

pub data Reply : Type 0 where
  done ignored repeated missing_identity no_delivery mismatch bad_timestamp : Reply

-- The delivery that the event is about, its subscriber, and the events already stored.
pub record Inbox : Type 0 where
  pub row : Delivery
  pub subscriber : Subscriber
  pub seen : List ℕ

-- `states.get(kind)`
abbrev pub state_of : EventKind → Bool → Option Status
state_of send t = some accepted
state_of delivery t = some delivered
state_of delivery_delay t = some delayed
state_of reject t = some rejected
state_of EventKind.complaint t = some Status.complaint
state_of bounce t = some (if t then soft_bounce else bounced)
state_of _ t = none

-- `rank.get(status, 0)`
abbrev pub rank : Status → ℕ
rank accepted = 1
rank delayed = 2
rank soft_bounce = 2
rank delivered = 3
rank failed = 4
rank rejected = 4
rank bounced = 5
rank Status.complaint = 6
rank suppressed = 6
rank _ = 0

abbrev pub clears_error : Status → Bool
clears_error accepted = true
clears_error delivered = true
clears_error _ = false

abbrev is_delivery : EventKind → Bool
is_delivery delivery = true
is_delivery _ = false

abbrev is_open : EventKind → Bool
is_open open_event = true
is_open _ = false

-- `kind == "Complaint" or (kind == "Bounce" and bounceType != "Transient")`
abbrev pub suppresses : EventKind → Bool → Bool
suppresses EventKind.complaint t = true
suppresses bounce t = not t
suppresses _ t = false

abbrev pub is_known : EventKind → Bool
is_known unknown = false
is_known _ = true

-- The change of status, and of the error code with it.
unfoldable pub advance : EventKind → Bool → Delivery → Delivery
advance kind transient row = elim (state_of kind transient) [
  | none ↦ row
  | some s ↦
      if not (is_confirmed row.status) && ltb (rank row.status) (rank s)
      then record row {
        status = s;
        error_code = if clears_error s then none else some (ses_state s);
      }
      else row
]

unfoldable pub note_times : Bool → EventKind → ℕ → ℕ → ℕ → Delivery → Delivery
note_times track_opens kind message stamp accepted_at row = record row {
  message_id = or_else row.message_id (some message);
  accepted_at = or_else row.accepted_at (some accepted_at);
  delivered_at =
      if is_delivery kind then or_else row.delivered_at (some stamp) else row.delivered_at;
  opened_at =
      if is_open kind && track_opens then or_else row.opened_at (some stamp) else row.opened_at;
}

abbrev not_older : Option ℕ → ℕ → Bool
not_older none stamp = true
not_older (some t) stamp = leb t stamp

unfoldable pub note_last : EventKind → ℕ → Delivery → Delivery
note_last kind stamp row =
    if not_older row.last_event_at stamp
    then record row { last_event = some kind; last_event_at = some stamp }
    else row

unfoldable pub suppress : EventKind → Bool → ℕ → Subscriber → Subscriber
suppress kind transient stamp s =
    if suppresses kind transient
    then record s { suppressed_at = or_else s.suppressed_at (some stamp) }
    else s

-- The body after the insert of the event; the ORM writes the row and its subscriber together.
unfoldable pub apply_event : Bool → Event → ℕ → ℕ → ℕ → Inbox → Inbox
unfolding advance note_times note_last suppress
apply_event track_opens e message stamp accepted_at db = record {
  row =
      note_last e.kind stamp (
        advance e.kind e.transient
          (note_times track_opens e.kind message stamp accepted_at db.row));
  subscriber = suppress e.kind e.transient stamp db.subscriber;
  seen = e.provider_id ∷ db.seen;
}

-- `detail.get("timestamp") or mail["timestamp"]`, and the time at which the mail was accepted.
abbrev pub stamp_of : Event → Option ℕ
stamp_of e = elim e.detail_timestamp [ none ↦ e.mail_timestamp | some t ↦ t ]

pub mismatches : Option ℕ → ℕ → Bool
mismatches none m = false
mismatches (some own) m = not (own == m)

pub seen_before : ℕ → List ℕ → Bool
seen_before k = any_of (λ j. j == k)

-- The insert of the event does nothing where its identifier is stored.
pub insert_event : Bool → Event → ℕ → ℕ → ℕ → Inbox → Inbox × Reply
unfolding seen_before
insert_event track_opens e message stamp accepted_at db =
    if seen_before e.provider_id db.seen
    then (db, repeated)
    else (apply_event track_opens e message stamp accepted_at db, done)

-- The two times, neither more than five minutes ahead.
pub timed_event : Bool → ℕ → Event → ℕ → Option ℕ → Option ℕ → Inbox → Inbox × Reply
unfolding insert_event
timed_event track_opens now e message (some stamp) (some accepted_at) db =
    if ltb (now + 300) (max stamp accepted_at)
    then (db, bad_timestamp)
    else insert_event track_opens e message stamp accepted_at db
timed_event track_opens now e message _ _ db = (db, bad_timestamp)

-- The route, once it has read the message's identity and looked the delivery up.
pub routed_event : Bool → ℕ → Event → Bool → Option ℕ → Inbox → Inbox × Reply
unfolding timed_event mismatches
routed_event track_opens now e found none db = (db, missing_identity)
routed_event track_opens now e found (some message) db =
    if not found
    then (db, no_delivery)
    else if mismatches db.row.message_id message
    then (db, mismatch)
    else if not (is_known e.kind)
    then (db, ignored)
    else timed_event track_opens now e message (stamp_of e) e.mail_timestamp db

-- `found` is false where there is no such delivery.
unfoldable pub ingest_event : Bool → ℕ → Event → Bool → Inbox → Inbox × Reply
unfolding routed_event
ingest_event track_opens now e found db = routed_event track_opens now e found e.message_id db
