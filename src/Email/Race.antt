-- ===== src/Email/Race.antt =====
-- One delivery of the outbox with everything that may touch it, as a step relation: any number of
-- workers in `send_one` of apps/worker/email_alerts.py, their crashes, the provider's events, and the
-- routes and maintenance jobs that write the row. A step is one transaction of the program, and
-- steps interleave freely.
pub mod Steps
pub mod Once
use meraipo.Prelude.{ℕ, ◌+◌, ◌≡◌, Bool, true, false, Option, none, some, List, [], ◌∷◌, ◌++◌, ltb}
use meraipo.Email.Rows.{
  Status, cancelled, replaced_by_daily_digest, Delivery, Subscriber, is_sendable,
}
use meraipo.Email.Events.{Event, ingest_event}
use meraipo.Email.Review.{World, claim, Review, stop, go, review}
use meraipo.Email.Sending.{
  Answer, sent, client_error, no_answer, settle, expire_sending, admin_retry,
}
use meraipo.Email.Consent.{confirmed_row}

-- A worker that has claimed the row, that is waiting for the provider, and that has its answer; each
-- knows the attempt that it claimed.
pub data Worker : Type 0 where
  held : ℕ → Worker
  waiting : ℕ → Worker
  answered : ℕ → Answer → Worker

-- The row, the workers that are busy with it, and how many messages the provider has accepted.
pub data Node : Type 0 where
  node : Delivery → List Worker → ℕ → Node

-- What the provider promises of its answers: an identifier means that it accepted the message, an
-- error below 500 that it did not; of any other answer nothing is known.
pub data Accepts : Answer → ℕ → Type 0 where
  by_identifier : (message : ℕ) → Accepts (sent message) 1
  refusal : (code : _) (http : ℕ) → ltb http 500 ≡ true → Accepts (client_error code http) 0
  unclear_error :
      (code : _) (http k : ℕ)
      → ltb http 500 ≡ false
      → ltb k 2 ≡ true
      → Accepts (client_error code http) k
  unclear : (k : ℕ) → ltb k 2 ≡ true → Accepts no_answer k

-- `prepare_digests` retires alerts of the older kind that were not sent yet.
unfoldable pub retire : Delivery → Delivery
retire row = record row { status = cancelled; error_code = some replaced_by_daily_digest }

module _ (max_attempts : ℕ) where
  pub data Step : Node → Node → Type 0 where
    claims :
        (now : ℕ) (row row' : Delivery) (ws : List Worker) (n : ℕ)
        → claim now row ≡ some row'
        → Step (node row ws n) (node row' (held row'.attempt_count ∷ ws) n)
    stops :
        (w : World) (row row' : Delivery) (xs ys : List Worker) (a n : ℕ)
        → review w row ≡ stop row'
        → Step (node row (xs ++ held a ∷ ys) n) (node row' (xs ++ ys) n)
    calls :
        (w : World) (row : Delivery) (xs ys : List Worker) (a n : ℕ)
        → review w row ≡ go
        → Step (node row (xs ++ held a ∷ ys) n) (node row (xs ++ waiting a ∷ ys) n)
    answers :
        (reply : Answer) (k : ℕ) (row : Delivery) (xs ys : List Worker) (a n : ℕ)
        → Accepts reply k
        → Step (node row (xs ++ waiting a ∷ ys) n) (node row (xs ++ answered a reply ∷ ys) (n + k))
    settles :
        (now jitter : ℕ) (reply : Answer) (row : Delivery) (xs ys : List Worker) (a n : ℕ)
        → Step
            (node row (xs ++ answered a reply ∷ ys) n)
            (node (settle now max_attempts jitter a reply row) (xs ++ ys) n)
    crashes :
        (row : Delivery) (xs ys : List Worker) (w : Worker) (n : ℕ)
        → Step (node row (xs ++ w ∷ ys) n) (node row (xs ++ ys) n)
    event :
        (t : Bool) (now : ℕ) (e : Event) (found : Bool) (row : Delivery) (s : Subscriber)
        (seen : List ℕ) (ws : List Worker) (n : ℕ)
        → Step (node row ws n) (
            node
              (ingest_event t now e found (record { row = row; subscriber = s; seen = seen })).0.row
              ws
              n)
    expires :
        (now updated_at : ℕ) (row : Delivery) (ws : List Worker) (n : ℕ)
        → Step (node row ws n) (node (expire_sending now updated_at row) ws n)
    retries :
        (now : ℕ) (row row' : Delivery) (ws : List Worker) (n : ℕ)
        → admin_retry now max_attempts row ≡ some row'
        → Step (node row ws n) (node row' ws n)
    retires :
        (row : Delivery) (ws : List Worker) (n : ℕ)
        → is_sendable row.status ≡ true
        → Step (node row ws n) (node (retire row) ws n)
    confirms :
        (row : Delivery) (ws : List Worker) (n : ℕ)
        → Step (node row ws n) (node (confirmed_row row) ws n)

  -- Reached from a node by any number of steps.
  pub data Reaches (first : Node) : Node → Type 0 where
    here : Reaches first first
    step : (mid last : Node) → Reaches first mid → Step mid last → Reaches first last
