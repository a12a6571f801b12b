-- ===== src/Email/Consent.antt =====
-- The consent of an address: `subscribe`, `action_row`, `confirm` and `do_unsubscribe` of
-- apps/api/email_routes.py. A mailbox is a subscriber with the deliveries that belong to it, each
-- under the hash of its action link; the parameters of a request say what its guards found.
pub mod Active
pub mod Replay
use meraipo.Prelude.{
  ℕ, ◌+◌, ◌*◌, Bool, true, false, not, ◌&&◌, ◌||◌, Option, none, some, List, [], ◌∷◌, ◌++◌, ltb,
  ◌==◌, if◌then◌else◌, or_else, is_some, update_first, update_where, first_where, any_of,
}
use meraipo.Email.Rows.{
  Kind, verify, pending, confirmed, Profile, Delivery, Subscriber, token_expired, is_confirmed,
}

pub record Link : Type 0 where
  pub hash : ℕ
  pub row : Delivery

pub record Mailbox : Type 0 where
  pub subscriber : Subscriber
  pub links : List Link

pub data Reply : Type 0 where
  unavailable unconfigured bad_origin invalid limited bad_link cannot_receive done : Reply

abbrev pub is_verify : Kind → Bool
is_verify verify = true
is_verify _ = false

abbrev pub has_hash : ℕ → Link → Bool
has_hash h l = l.hash == h

-- What a new request for alerts brings: the answers of the guards before the database is read, in
-- their order, and the hash of the link that a new verification would have.
pub record Signup : Type 0 where
  pub feature_enabled : Bool
  pub configured : Bool
  pub same_origin : Bool
  pub profile : Option Profile
  pub within_limits : Bool
  pub new_hash : ℕ

-- `delivery(subscriber.id)`, with the profile that it is to confirm.
abbrev verification : ℕ → Profile → Delivery
verification now profile = record {
  kind = verify;
  status = pending;
  attempt_count = 0;
  retry_at = none;
  message_id = none;
  requested_profile = some profile;
  accepted_at = none;
  delivered_at = none;
  opened_at = none;
  unsubscribed_at = none;
  last_event = none;
  last_event_at = none;
  error_code = none;
  created_at = now;
}

-- The row of a first signup: `insert … on_conflict_do_nothing`.
abbrev new_mailbox : ℕ → Mailbox
new_mailbox now = record {
  subscriber = record {
    contact = none;
    gmp_band = none;
    consent_at = now;
    verified_at = none;
    unsubscribed_at = none;
    suppressed_at = none;
  };
  links = [];
}

-- An unconfirmed verification of the last 24 hours.
abbrev is_recent : ℕ → Link → Bool
is_recent now l =
    is_verify l.row.kind && not (is_confirmed l.row.status) && ltb now (l.row.created_at + 86400)

abbrev request_profile : Profile → Link → Link
request_profile profile l = record l { row = record l.row { requested_profile = some profile } }

-- A recent verification takes the new profile; otherwise there is a new one.
unfoldable pub store_request : ℕ → Profile → ℕ → Mailbox → Mailbox
store_request now profile new_hash box =
    if is_some box.subscriber.suppressed_at
    then box
    else if any_of (is_recent now) box.links
    then record box { links = update_first (is_recent now) (request_profile profile) box.links }
    else record box {
      links = box.links ++ record { hash = new_hash; row = verification now profile } ∷ [];
    }

signup_profile : ℕ → Signup → Option Profile → Option Mailbox → Option Mailbox × Reply
unfolding store_request
signup_profile now s none box = (box, invalid)
signup_profile now s (some profile) box = if not s.within_limits then (box, limited) else (
  some (store_request now profile s.new_hash (elim box [ none ↦ new_mailbox now | some b ↦ b ])),
  done,
)

unfoldable pub subscribe : ℕ → Signup → Option Mailbox → Option Mailbox × Reply
unfolding signup_profile
subscribe now s box =
    if not s.feature_enabled
    then (box, unavailable)
    else if not s.configured
    then (box, unconfigured)
    else if not s.same_origin
    then (box, bad_origin)
    else signup_profile now s s.profile box

-- `action_row`: a link that is not a verification's is good for a number of days.
abbrev pub is_old : ℕ → ℕ → Delivery → Bool
is_old now days row = not (is_verify row.kind) && ltb (row.created_at + days * 86400) now

unfoldable pub action_row : ℕ → ℕ → ℕ → Mailbox → Option Delivery
action_row now days h box = elim (first_where (has_hash h) box.links) [
  | none ↦ none
  | some l ↦ if is_old now days l.row then none else some l.row
]

-- The subscriber and the row after a confirmation that was not consumed before.
abbrev pub confirmed_subscriber : ℕ → Option Profile → Subscriber → Subscriber
confirmed_subscriber now none s = record s {
  verified_at = or_else s.verified_at (some now);
  unsubscribed_at = none;
  consent_at = now;
}
confirmed_subscriber now (some profile) s = record s {
  verified_at = or_else s.verified_at (some now);
  unsubscribed_at = none;
  contact = some profile.contact;
  gmp_band = some profile.gmp_band;
  consent_at = now;
}

abbrev pub confirmed_row : Delivery → Delivery
confirmed_row row = record row { status = confirmed; requested_profile = none }

abbrev set_row : ℕ → (Delivery → Delivery) → Mailbox → Mailbox
set_row h f box = record box {
  links = update_where (has_hash h) (λ l. record l { row = f l.row }) box.links;
}

unfoldable pub confirm_row : ℕ → ℕ → Delivery → Mailbox → Mailbox × Reply
confirm_row now h row box =
    if not (is_verify row.kind) || token_expired now row
    then (box, bad_link)
    else if is_some box.subscriber.suppressed_at
    then (box, cannot_receive)
    else if is_confirmed row.status
    then (box, done)
    else (
      set_row h confirmed_row (record box {
        subscriber = confirmed_subscriber now row.requested_profile box.subscriber;
      }),
      done,
    )

unfoldable pub confirm : ℕ → ℕ → ℕ → Mailbox → Mailbox × Reply
unfolding confirm_row
confirm now days h box = elim (action_row now days h box) [
  | none ↦ (box, bad_link)
  | some row ↦ confirm_row now h row box
]

unfoldable pub do_unsubscribe : ℕ → ℕ → ℕ → Mailbox → Mailbox × Reply
do_unsubscribe now days h box = elim (action_row now days h box) [
  | none ↦ (box, bad_link)
  | some row ↦ (
    set_row h (λ r. record r { unsubscribed_at = or_else r.unsubscribed_at (some now) })
        (record box {
          subscriber = record box.subscriber {
            unsubscribed_at = or_else box.subscriber.unsubscribed_at (some now);
          };
        }),
    done,
  )
]
