-- ===== src/Email/Sending/Calls.antt =====
-- When `send_one` of apps/worker/email_alerts.py calls the provider.
use meraipo.Prelude.{
  ℕ, ◌≡◌, ◌⊎◌, inl, inr, sym, ◌∙◌, true, false, none, some, arith, Bool-cases, Option-cases,
}
use meraipo.Email.Rows.{alert, verify, Delivery, is_sendable, active, token_expired}
use meraipo.Email.Review.{World, may_claim, is_ready, claim, review, go}
use meraipo.Email.Sending.{Answer, send_one, after_claim}

-- What holds whenever the provider is called for a row.
pub record IsCleared (w : World) (row : Delivery) : Type 0 where
  pub allowed : may_claim w row.kind ≡ true
  pub sendable : is_sendable row.status ≡ true
  pub ready : is_ready w.now row.retry_at ≡ true
  pub not_suppressed : w.subscriber.suppressed_at ≡ none
  pub consented : row.kind ≡ alert → active w.subscriber ≡ true
  pub in_time : row.kind ≡ verify → token_expired w.now row ≡ false

review_suppression :
    (w : World) (row : Delivery) → review w row ≡ go → w.subscriber.suppressed_at ≡ none
unfolding review
review_suppression w row h = ground arith

review_consent :
    (w : World) (row : Delivery) → review w row ≡ go → row.kind ≡ alert → active w.subscriber ≡ true
unfolding review
review_consent w row h k = ground arith

review_expiry :
    (w : World) (row : Delivery)
    → review w row ≡ go
    → row.kind ≡ verify
    → token_expired w.now row ≡ false
unfolding review
review_expiry w row h k = ground arith

-- A confirmation link expires by its row's creation alone.
token_expired_same :
    (now : ℕ) (row row' : Delivery)
    → row'.created_at ≡ row.created_at
    → token_expired now row' ≡ token_expired now row
unfolding token_expired
token_expired_same now row row' e = rw e

claim_from :
    (now : ℕ) (row row' : Delivery)
    → claim now row ≡ some row'
    → ((is_sendable row.status ≡ true) × (is_ready now row.retry_at ≡ true))
      × ((row'.kind ≡ row.kind) × (row'.created_at ≡ row.created_at))
unfolding claim
claim_from now row row' h = ground arith

after_claim_calls :
    (w : World) (jitter : ℕ) (reply : Answer) (row : Delivery)
    → ((after_claim w jitter reply row).1 ≡ 0)
      ⊎ (((after_claim w jitter reply row).1 ≡ 1) × (review w row ≡ go))
unfolding after_claim
after_claim_calls w jitter reply row = ground arith

-- `send_one` calls the provider at most once, and only for a row that its guards let through, that is
-- pending or to be retried and whose delay is over, for an address that is not suppressed; an alert
-- goes only to an active subscriber, and a confirmation mail only while its link is good.
pub send_one_called :
    (w : World) (jitter : ℕ) (reply : Answer) (row : Delivery)
    → ((send_one w jitter reply row).1 ≡ 0)
      ⊎ (((send_one w jitter reply row).1 ≡ 1) × IsCleared w row)
unfolding send_one
send_one_called w jitter reply row = elim (Bool-cases (may_claim w row.kind)) [
  | inr refused ↦ inl (rw refused)
  | inl ok ↦ elim (Option-cases (claim w.now row)) [
    | inl free ↦ inl (rw (ok, free))
    | inr (row', e) ↦
        rw (ok, e)
          (elim (after_claim_calls w jitter reply row') [
            | inl zero_calls ↦ inl zero_calls
            | inr (one, g) ↦ inr (
              one,
              record {
                allowed = ok;
                sendable = (claim_from w.now row row' e).0.0;
                ready = (claim_from w.now row row' e).0.1;
                not_suppressed = review_suppression w row' g;
                consented = λ k. review_consent w row' g ((claim_from w.now row row' e).1.0 ∙ k);
                in_time = λ k.
                    sym (token_expired_same w.now row row' (claim_from w.now row row' e).1.1)
                    ∙ review_expiry w row' g ((claim_from w.now row row' e).1.0 ∙ k);
              },
            )
          ])
  ]
]
