-- ===== src/Email/Race/Steps.antt =====
-- The invariant of the outbox row, and that every step keeps it.
use meraipo.Prelude.{
  ℕ, ◌+◌, ◌≡◌, refl, Bool, true, false, not, ◌&&◌, ◌||◌, some, List, [], ◌∷◌, ◌++◌, arith, ltb, leb,
  ◌==◌,
}
use meraipo.Email.Rows.{Status, pending, retry, failed, Delivery, is_sendable}
use meraipo.Email.Review.{claim}
use meraipo.Email.Sending.{Answer, client_error, settle, expire_sending, admin_retry}
use meraipo.Email.Consent.{confirmed_row}
use meraipo.Email.Race.{
  Worker, held, waiting, answered, Accepts, by_identifier, refusal, unclear_error, unclear, retire,
}

-- The states from which a message may be sent again: what is sendable, and what an administrator
-- may retry.
abbrev pub may_resend : Status → Bool
may_resend pending = true
may_resend retry = true
may_resend failed = true
may_resend _ = false

abbrev pub busy : List Worker → Bool
busy [] = false
busy (w ∷ ws) = true

abbrev pub refuses : Answer → Bool
refuses (client_error code http) = ltb http 500
refuses _ = false

-- What a worker knows: the attempt, and that nothing was accepted before it has its answer.
abbrev pub knows : ℕ → ℕ → Worker → Bool
knows count n (held a) = a == count && ltb 0 a && n == 0
knows count n (waiting a) = a == count && ltb 0 a && n == 0
knows count n (answered a reply) = a == count && ltb 0 a && (not (refuses reply) || n == 0)

-- There is one worker at most.
abbrev pub crew : ℕ → ℕ → List Worker → Bool
crew count n [] = true
crew count n (w ∷ []) = knows count n w
crew count n (w ∷ v ∷ ws) = false

-- A row that is busy, or whose message was accepted, cannot be sent again; a row that can has
-- attempts left.
abbrev pub safe : ℕ → Status → ℕ → List Worker → ℕ → Bool
safe max s count ws n =
    (leb n 1 && leb count max && (not (is_sendable s) || ltb count max))
    && ((not (busy ws || ltb 0 n) || not (may_resend s)) && crew count n ws)

abbrev pub safe_row : ℕ → Delivery → List Worker → ℕ → Bool
safe_row max row ws n = safe max row.status row.attempt_count ws n

pub claims_safe :
    (max now : ℕ) (row row' : Delivery) (ws : List Worker) (n : ℕ)
    → claim now row ≡ some row'
    → safe_row max row ws n ≡ true
    → safe_row max row' (held row'.attempt_count ∷ ws) n ≡ true
unfolding claim
claims_safe max now row row' [] n e h = ground arith
claims_safe max now row row' (w ∷ ws) n e h = ground arith

pub crashes_safe :
    (max : ℕ) (row : Delivery) (xs ys : List Worker) (w : Worker) (n : ℕ)
    → safe_row max row (xs ++ w ∷ ys) n ≡ true
    → safe_row max row (xs ++ ys) n ≡ true
crashes_safe max row [] [] w n h = ground arith
crashes_safe max row [] (y ∷ ys) w n h = ground arith
crashes_safe max row (x ∷ []) ys w n h = ground arith
crashes_safe max row (x ∷ y ∷ xs) ys w n h = ground arith

pub calls_safe :
    (max : ℕ) (row : Delivery) (xs ys : List Worker) (a n : ℕ)
    → safe_row max row (xs ++ held a ∷ ys) n ≡ true
    → safe_row max row (xs ++ waiting a ∷ ys) n ≡ true
calls_safe max row [] [] a n h = ground arith
calls_safe max row [] (y ∷ ys) a n h = ground arith
calls_safe max row (x ∷ []) ys a n h = ground arith
calls_safe max row (x ∷ y ∷ xs) ys a n h = ground arith

pub Accepts-once :
    (reply : Answer) (k : ℕ) → Accepts reply k → (leb k 1 && (not (refuses reply) || k == 0)) ≡ true
Accepts-once _ _ (by_identifier message) = refl
Accepts-once _ _ (refusal code http h) = ground arith
Accepts-once _ _ (unclear_error code http k h b) = ground arith
Accepts-once _ _ (unclear k b) = ground arith

pub answers_safe :
    (max : ℕ) (reply : Answer) (k : ℕ) (row : Delivery) (xs ys : List Worker) (a n : ℕ)
    → (leb k 1 && (not (refuses reply) || k == 0)) ≡ true
    → safe_row max row (xs ++ waiting a ∷ ys) n ≡ true
    → safe_row max row (xs ++ answered a reply ∷ ys) (n + k) ≡ true
answers_safe max reply k row [] [] a n p h = ground arith
answers_safe max reply k row [] (y ∷ ys) a n p h = ground arith
answers_safe max reply k row (x ∷ []) ys a n p h = ground arith
answers_safe max reply k row (x ∷ y ∷ xs) ys a n p h = ground arith

pub settles_safe :
    (max now jitter : ℕ) (reply : Answer) (row : Delivery) (xs ys : List Worker) (a n : ℕ)
    → safe_row max row (xs ++ answered a reply ∷ ys) n ≡ true
    → safe_row max (settle now max jitter a reply row) (xs ++ ys) n ≡ true
unfolding settle
settles_safe max now jitter reply row [] [] a n h = ground arith
settles_safe max now jitter reply row [] (y ∷ ys) a n h = ground arith
settles_safe max now jitter reply row (x ∷ []) ys a n h = ground arith
settles_safe max now jitter reply row (x ∷ y ∷ xs) ys a n h = ground arith

pub retires_safe :
    (max : ℕ) (row : Delivery) (ws : List Worker) (n : ℕ)
    → safe_row max row ws n ≡ true
    → safe_row max (retire row) ws n ≡ true
unfolding retire
retires_safe max row ws n h = ground arith

pub confirms_safe :
    (max : ℕ) (row : Delivery) (ws : List Worker) (n : ℕ)
    → safe_row max row ws n ≡ true
    → safe_row max (confirmed_row row) ws n ≡ true
confirms_safe max row ws n h = ground arith

pub expires_safe :
    (max now at : ℕ) (row : Delivery) (ws : List Worker) (n : ℕ)
    → safe_row max row ws n ≡ true
    → safe_row max (expire_sending now at row) ws n ≡ true
unfolding expire_sending
expires_safe max now at row ws n h = ground arith

pub retries_safe :
    (max now : ℕ) (row row' : Delivery) (ws : List Worker) (n : ℕ)
    → admin_retry now max row ≡ some row'
    → safe_row max row ws n ≡ true
    → safe_row max row' ws n ≡ true
unfolding admin_retry
retries_safe max now row row' ws n e h = ground arith
