-- ===== src/Email/Consent/Active.antt =====
-- When an address becomes, and when it stays, inactive.
use mathlib.Core.Bool.{false≢true}
use meraipo.Prelude.{ℕ, ◌≡◌, sym, ◌∙◌, inl, inr, true, false, none, some, arith, Option-cases}
use meraipo.Email.Rows.{verify, Delivery, active, token_expired, is_confirmed}
use meraipo.Email.Consent.{Mailbox, Reply, action_row, confirm_row, confirm, do_unsubscribe}

-- What `confirm` has checked when it turns an address active.
pub record Confirms (now days h : ℕ) (box : Mailbox) : Type 0 where
  pub row : Delivery
  pub found : action_row now days h box ≡ some row
  pub kind : row.kind ≡ verify
  pub fresh : token_expired now row ≡ false
  pub unused : is_confirmed row.status ≡ false
  pub not_suppressed : box.subscriber.suppressed_at ≡ none

confirm_row-Confirms :
    (now days h : ℕ) (row : Delivery) (box : Mailbox)
    → action_row now days h box ≡ some row
    → active box.subscriber ≡ false
    → active (confirm_row now h row box).0.subscriber ≡ true
    → Confirms now days h box
unfolding confirm_row active
confirm_row-Confirms now days h row box e was is = record {
  row = row;
  found = e;
  kind = ground arith;
  fresh = ground arith;
  unused = ground arith;
  not_suppressed = ground arith;
}

-- An inactive address becomes active by `confirm` only through a verification link that is less
-- than a day old and was not consumed, and never while it is suppressed.
pub confirm_activates :
    (now days h : ℕ) (box : Mailbox)
    → active box.subscriber ≡ false
    → active (confirm now days h box).0.subscriber ≡ true
    → Confirms now days h box
unfolding confirm
confirm_activates now days h box was is = elim (Option-cases (action_row now days h box)) [
  | inl e ↦ absurd (false≢true (sym was ∙ rw (confirm, e) at is))
  | inr (row, e) ↦ confirm_row-Confirms now days h row box e was (rw (confirm, e) at is)
]

-- A link that `do_unsubscribe` takes leaves the address inactive.
do_unsubscribe_inactive :
    (now days h : ℕ) (box : Mailbox)
    → (do_unsubscribe now days h box).1 ≡ Reply.done
    → active (do_unsubscribe now days h box).0.subscriber ≡ false
unfolding do_unsubscribe active
do_unsubscribe_inactive now days h box d = ground arith
