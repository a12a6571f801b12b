-- ===== src/Email/Race/Once.antt =====
-- The message of a delivery is accepted at most once, however the steps interleave.
use meraipo.Prelude.{
  ℕ, ◌+◌, ◌≡◌, ◌≤◌, refl, inl, inr, ◌⊎◌, Bool, true, false, not, ◌&&◌, ◌||◌, List, [], ◌∷◌, ◌++◌,
  arith, ltb, leb, ◌==◌, length,
}
use meraipo.Email.Rows.{Status, pending, Delivery}
use meraipo.Email.Events.{Event, Inbox, ingest_event, apply_event}
use meraipo.Email.Review.{World, stop, review}
use meraipo.Email.Race.{
  Worker, held, Node, node, Step, claims, stops, calls, answers, settles, crashes, event, expires,
  retries, retires, confirms, Reaches, here, step,
}
use meraipo.Email.Race.Steps.{
  may_resend, safe, safe_row, claims_safe, crashes_safe, calls_safe, Accepts-once, answers_safe,
  settles_safe, retires_safe, confirms_safe, expires_safe, retries_safe,
}

-- A row that the review stops either cannot be sent any more or is as it was before the claim.
abbrev stopped_well : Delivery → Delivery → Bool
stopped_well row row' =
    not (may_resend row'.status) && row'.attempt_count == row.attempt_count
    || row'.attempt_count + 1 == row.attempt_count

review_stops :
    (w : World) (row row' : Delivery)
    → ltb 0 row.attempt_count ≡ true
    → review w row ≡ stop row'
    → stopped_well row row' ≡ true
unfolding review
review_stops w row row' h e = ground arith

-- A worker that holds the row is alone, nothing was accepted, and its attempt is one of those allowed.
abbrev first_hold : ℕ → ℕ → ℕ → Bool
first_hold max count n = (ltb 0 count && leb count max) && n == 0

held_first :
    (max : ℕ) (s : Status) (count : ℕ) (xs ys : List Worker) (a n : ℕ)
    → safe max s count (xs ++ held a ∷ ys) n ≡ true
    → (first_hold max count n ≡ true) × (xs ++ ys ≡ [])
held_first max s count [] [] a n h = (ground arith, refl)
held_first max s count [] (y ∷ ys) a n h = ground arith
held_first max s count (x ∷ []) ys a n h = ground arith
held_first max s count (x ∷ y ∷ xs) ys a n h = ground arith

first_hold_attempt : (max count n : ℕ) → first_hold max count n ≡ true → ltb 0 count ≡ true
first_hold_attempt max count n h = ground arith

stopped_safe :
    (max : ℕ) (row row' : Delivery) (n : ℕ)
    → stopped_well row row' ≡ true
    → first_hold max row.attempt_count n ≡ true
    → safe_row max row' [] n ≡ true
stopped_safe max row row' n p h = ground arith

event_attempts :
    (t : Bool) (now : ℕ) (e : Event) (found : Bool) (db : Inbox)
    → (ingest_event t now e found db).0.row.attempt_count ≡ db.row.attempt_count
unfolding ingest_event apply_event
event_attempts t now e found db = ground arith

-- An event leaves a row as sendable as it was or makes it not to be resent.
event_status :
    (t : Bool) (now : ℕ) (e : Event) (found : Bool) (db : Inbox)
    → (may_resend (ingest_event t now e found db).0.row.status ≡ false)
      ⊎ ((ingest_event t now e found db).0.row.status ≡ db.row.status)
unfolding ingest_event apply_event
event_status t now e found db = ground arith

event_safe :
    (max : ℕ) (row row' : Delivery) (ws : List Worker) (n : ℕ)
    → row'.attempt_count ≡ row.attempt_count
    → (may_resend row'.status ≡ false) ⊎ (row'.status ≡ row.status)
    → safe_row max row ws n ≡ true
    → safe_row max row' ws n ≡ true
event_safe max row row' ws n e (inl b) h = ground arith
event_safe max row row' ws n e (inr b) h = rw (e, b) h

safe_facts :
    (max : ℕ) (s : Status) (count : ℕ) (ws : List Worker) (n : ℕ)
    → safe max s count ws n ≡ true
    → (n ≤ 1) × ((length ws ≤ 1) × ((count ≤ max) × (n ≡ 1 → may_resend s ≡ false)))
safe_facts max s count [] n h = (ground arith, (omega arith, (ground arith, λ e. ground arith)))
safe_facts max s count (w ∷ []) n h =
    (ground arith, (omega arith, (ground arith, λ e. ground arith)))
safe_facts max s count (w ∷ v ∷ ws) n h = ground arith

module _ (max : ℕ) where
  abbrev pub safe_node : Node → Bool
  safe_node (node row ws n) = safe_row max row ws n

  Step-safe : (x y : Node) → Step max x y → safe_node x ≡ true → safe_node y ≡ true
  Step-safe _ _ (claims now row row' ws n e) h = claims_safe max now row row' ws n e h
  Step-safe _ _ (stops w row row' xs ys a n e) h =
      let (p, q) = held_first max row.status row.attempt_count xs ys a n h in
      rw q (
        stopped_safe max row row' n
          (review_stops w row row' (first_hold_attempt max row.attempt_count n p) e) p)
  Step-safe _ _ (calls w row xs ys a n e) h = calls_safe max row xs ys a n h
  Step-safe _ _ (answers reply k row xs ys a n e) h =
      answers_safe max reply k row xs ys a n (Accepts-once reply k e) h
  Step-safe _ _ (settles now jitter reply row xs ys a n) h =
      settles_safe max now jitter reply row xs ys a n h
  Step-safe _ _ (crashes row xs ys w n) h = crashes_safe max row xs ys w n h
  Step-safe _ _ (event t now e found row s seen ws n) h =
      let db : Inbox = record { row = row; subscriber = s; seen = seen } in
      event_safe max row (ingest_event t now e found db).0.row ws n
        (event_attempts t now e found db) (event_status t now e found db) h
  Step-safe _ _ (expires now at row ws n) h = expires_safe max now at row ws n h
  Step-safe _ _ (retries now row row' ws n e) h = retries_safe max now row row' ws n e h
  Step-safe _ _ (retires row ws n e) h = retires_safe max row ws n h
  Step-safe _ _ (confirms row ws n) h = confirms_safe max row ws n h

  reached_safe : (x y : Node) → Reaches max x y → safe_node x ≡ true → safe_node y ≡ true
  reached_safe x _ here h = h
  reached_safe x y (step mid _ r s) h = Step-safe mid y s (reached_safe x mid r h)

new_safe :
    (max : ℕ) (row : Delivery)
    → leb 1 max ≡ true
    → row.status ≡ pending
    → row.attempt_count ≡ 0
    → safe_row max row [] 0 ≡ true
new_safe max row m p z = ground arith

-- Where at least one attempt is allowed, in every state that is reached from a new delivery, which
-- is pending with no attempt: the provider has accepted its message once at most, one worker at
-- most is busy with it, it was attempted at most the configured number of times, and once a message
-- was accepted it is not sendable any more.
pub sent_at_most_once :
    (max : ℕ) (row last : Delivery) (ws : List Worker) (n : ℕ)
    → leb 1 max ≡ true
    → row.status ≡ pending
    → row.attempt_count ≡ 0
    → Reaches max (node row [] 0) (node last ws n)
    → (n ≤ 1)
      × ((length ws ≤ 1) × ((last.attempt_count ≤ max) × (n ≡ 1 → may_resend last.status ≡ false)))
sent_at_most_once max row last ws n m p z r =
    safe_facts max last.status last.attempt_count ws n
      (reached_safe max _ _ r (new_safe max row m p z))
