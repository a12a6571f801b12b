-- ===== src/Email/Events/Ranks.antt =====
-- What `ingest_event` of apps/api/email_routes.py keeps: the order of the states, the events that are
-- already stored, and the suppression of an address.
use mathlib.Core.Bool.{false≢true}
use meraipo.Prelude.{
  ℕ, ◌+◌, ◌≡◌, ◌≢◌, sym, ◌∙◌, ◌↔◌, ◌⊎◌, refl, leb, Bool, true, false, Option, none, some, arith,
  ltb, if◌then◌else◌, max, is_some, Bool-cases, inl, inr,
}
use meraipo.Email.Rows.{Status, EventKind, bounce, Delivery, is_confirmed, is_sendable}
use meraipo.Email.Events.{
  Event, Reply, done, Inbox, state_of, rank, suppresses, is_known, advance, apply_event, stamp_of,
  mismatches, seen_before, routed_event, insert_event, timed_event, ingest_event,
}

-- The later of a state and the one that an event reports, if any; of two of one rank, the first.
abbrev pub later_status : Status → Option Status → Status
later_status s none = s
later_status s (some u) = if leb (rank u) (rank s) then s else u

advance_status :
    (e : Event) (row : Delivery)
    → (advance e.kind e.transient row).status ≡ (
        if is_confirmed row.status
        then row.status
        else later_status row.status (state_of e.kind e.transient))
unfolding advance
advance_status e row = ground arith

apply_status :
    (t : Bool) (e : Event) (m s a : ℕ) (db : Inbox)
    → (apply_event t e m s a db).row.status ≡ (advance e.kind e.transient db.row).status
unfolding apply_event
apply_status t e m s a db = ground arith

-- An event changes something only where the reply is `done`.
pub ingest_event_kept :
    (t : Bool) (now : ℕ) (e : Event) (found : Bool) (db : Inbox)
    → (ingest_event t now e found db).1 ≢ done
    → (ingest_event t now e found db).0 ≡ db
unfolding ingest_event
ingest_event_kept t now e found db h = ground arith

-- What a reply `done` means: the event is new, and its body ran.
pub record Applied (t : Bool) (e : Event) (db after : Inbox) : Type 0 where
  pub message : ℕ
  pub stamp : ℕ
  pub accepted_at : ℕ
  pub fresh : seen_before e.provider_id db.seen ≡ false
  pub result : after ≡ apply_event t e message stamp accepted_at db

insert_event-Applied :
    (t : Bool) (e : Event) (m s a : ℕ) (db : Inbox)
    → (insert_event t e m s a db).1 ≡ done
    → Applied t e db (insert_event t e m s a db).0
unfolding insert_event
insert_event-Applied t e m s a db h = elim (Bool-cases (seen_before e.provider_id db.seen)) [
  | inl old ↦ absurd (ground arith)
  | inr new ↦ record { message = m; stamp = s; accepted_at = a; fresh = new; result = rw new }
]

timed_event-Applied :
    (t : Bool) (now : ℕ) (e : Event) (m : ℕ) (s a : Option ℕ) (db : Inbox)
    → (timed_event t now e m s a db).1 ≡ done
    → Applied t e db (timed_event t now e m s a db).0
unfolding timed_event
timed_event-Applied t now e m (some s) (some a) db h =
    elim (Bool-cases (ltb (now + 300) (max s a))) [
      | inl ahead ↦ absurd (ground arith)
      | inr fine ↦ rw fine (insert_event-Applied t e m s a db (rw fine at h))
    ]
timed_event-Applied t now e m none none db h = absurd (ground arith)
timed_event-Applied t now e m none (some a) db h = absurd (ground arith)
timed_event-Applied t now e m (some s) none db h = absurd (ground arith)

routed_event-Applied :
    (t : Bool) (now : ℕ) (e : Event) (found : Bool) (id : Option ℕ) (db : Inbox)
    → (routed_event t now e found id db).1 ≡ done
    → Applied t e db (routed_event t now e found id db).0
unfolding routed_event
routed_event-Applied t now e false none db h = absurd (ground arith)
routed_event-Applied t now e true none db h = absurd (ground arith)
routed_event-Applied t now e false (some m) db h = absurd (ground arith)
routed_event-Applied t now e true (some m) db h =
    elim (Bool-cases (mismatches db.row.message_id m)) [
      | inl x ↦ absurd (ground arith)
      | inr ok ↦ elim (Bool-cases (is_known e.kind)) [
        | inr x ↦ absurd (ground arith)
        | inl k ↦
            rw (ok, k)
              (timed_event-Applied t now e m (stamp_of e) e.mail_timestamp db (rw (ok, k) at h))
      ]
    ]

ingest_event-Applied :
    (t : Bool) (now : ℕ) (e : Event) (found : Bool) (db : Inbox)
    → (ingest_event t now e found db).1 ≡ done
    → Applied t e db (ingest_event t now e found db).0
unfolding ingest_event
ingest_event-Applied t now e found db h = routed_event-Applied t now e found e.message_id db h

abbrev is_done : Reply → Bool
is_done done = true
is_done _ = false

done_of : (r : Reply) → is_done r ≡ true → r ≡ done
done_of r h = ground arith

-- Once an event is stored, its identifier is known.
seen_after :
    (t : Bool) (e : Event) (m s a : ℕ) (db : Inbox)
    → seen_before e.provider_id (apply_event t e m s a db).seen ≡ true
unfolding seen_before apply_event
seen_after t e m s a db = ground arith

-- An event that is stored leaves the state of a confirmed delivery as it is. Of any other it makes
-- the state that the event reports where that is of a higher rank, and leaves it otherwise, also
-- where the rank is the same or the event reports none.
pub ingest_event_status :
    (t : Bool) (now : ℕ) (e : Event) (found : Bool) (db : Inbox)
    → (ingest_event t now e found db).1 ≡ done
    → (ingest_event t now e found db).0.row.status ≡ (
        if is_confirmed db.row.status
        then db.row.status
        else later_status db.row.status (state_of e.kind e.transient))
ingest_event_status t now e found db h =
    let x = ingest_event-Applied t now e found db h in
    rw x.result (rw (apply_status t e x.message x.stamp x.accepted_at db) (advance_status e db.row))

-- An event that was stored changes nothing more when it is ingested again, at any time.
ingest_event_again :
    (t u : Bool) (now later : ℕ) (e : Event) (found : Bool) (db : Inbox)
    → (ingest_event t now e found db).1 ≡ done
    → (ingest_event u later e found (ingest_event t now e found db).0).0
      ≡ (ingest_event t now e found db).0
ingest_event_again t u now later e found db h =
    let x = ingest_event-Applied t now e found db h in
    ingest_event_kept u later e found (ingest_event t now e found db).0 (λ again.
      let y = ingest_event-Applied u later e found (ingest_event t now e found db).0 again in
      false≢true (sym y.fresh ∙ rw x.result (seen_after t e x.message x.stamp x.accepted_at db)))

-- A suppression stays: no event removes it or changes its time.
ingest_event_suppressed :
    (t : Bool) (now : ℕ) (e : Event) (found : Bool) (db : Inbox) (at : ℕ)
    → db.subscriber.suppressed_at ≡ some at
    → (ingest_event t now e found db).0.subscriber.suppressed_at ≡ some at
unfolding ingest_event apply_event
ingest_event_suppressed t now e found db at h = ground arith

-- A complaint, or a bounce that is not transient.
abbrev pub IsLasting : Event → Type 0
IsLasting e = (e.kind ≡ EventKind.complaint) ⊎ ((e.kind ≡ bounce) × (e.transient ≡ false))

suppresses_of : (e : Event) → IsLasting e → suppresses e.kind e.transient ≡ true
suppresses_of e (inl c) = rw c refl
suppresses_of e (inr (b, p)) = rw (b, p) refl

lasting_of :
    (k : EventKind) (t : Bool)
    → suppresses k t ≡ true
    → (k ≡ EventKind.complaint) ⊎ ((k ≡ bounce) × (t ≡ false))
lasting_of k t h = ground arith

suppressed_after :
    (t : Bool) (e : Event) (m s a : ℕ) (db : Inbox)
    → db.subscriber.suppressed_at ≡ none
    → (apply_event t e m s a db).subscriber.suppressed_at
      ≡ (if suppresses e.kind e.transient then some s else none)
unfolding apply_event
suppressed_after t e m s a db n = ground arith

-- An event that is stored suppresses an address that was not suppressed exactly when it is a
-- complaint or a bounce that is not transient.
pub ingest_event-suppresses_iff :
    (t : Bool) (now : ℕ) (e : Event) (found : Bool) (db : Inbox)
    → (ingest_event t now e found db).1 ≡ done
    → db.subscriber.suppressed_at ≡ none
    → (is_some (ingest_event t now e found db).0.subscriber.suppressed_at ≡ true) ↔ IsLasting e
ingest_event-suppresses_iff t now e found db h n =
    let x = ingest_event-Applied t now e found db h in
    let after = suppressed_after t e x.message x.stamp x.accepted_at db n in
    (
      λ q. elim (Bool-cases (suppresses e.kind e.transient)) [
        | inl y ↦ lasting_of e.kind e.transient y
        | inr z ↦ absurd (false≢true (rw (x.result, after, z) at q))
      ],
      λ l. rw (x.result, after, suppresses_of e l) refl,
    )

advance_not_sendable :
    (e : Event) (row : Delivery)
    → is_sendable row.status ≡ false
    → is_sendable (advance e.kind e.transient row).status ≡ false
unfolding advance
advance_not_sendable e row h = ground arith

-- No event makes a delivery sendable that was not.
ingest_event_not_sendable :
    (t : Bool) (now : ℕ) (e : Event) (found : Bool) (db : Inbox)
    → is_sendable db.row.status ≡ false
    → is_sendable (ingest_event t now e found db).0.row.status ≡ false
ingest_event_not_sendable t now e found db h =
    elim (Bool-cases (is_done (ingest_event t now e found db).1)) [
      | inl d ↦
          let x = ingest_event-Applied t now e found db (done_of _ d) in
          rw x.result (
            rw (apply_status t e x.message x.stamp x.accepted_at db)
              (advance_not_sendable e db.row h))
      | inr n ↦ rw (ingest_event_kept t now e found db (λ q. false≢true (sym n ∙ rw q))) h
    ]
