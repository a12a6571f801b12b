-- ===== src/Email/Consent/Replay.antt =====
-- A confirmation link works once.
use meraipo.Prelude.{
  ℕ, ◌≡◌, refl, Bool, true, none, some, List, [], ◌∷◌, arith, or_else, update_where, first_where,
}
use meraipo.Email.Rows.{is_confirmed}
use meraipo.Email.Consent.{
  Link, Mailbox, Reply, has_hash, action_row, confirmed_row, confirm, do_unsubscribe,
}

-- The link under a hash, if there is one, has been consumed.
abbrev consumed : ℕ → List Link → Bool
consumed h links = elim (first_where (has_hash h) links) [
  | none ↦ true
  | some l ↦ is_confirmed l.row.status
]

consumed_confirmed :
    (h : ℕ) (links : List Link)
    → consumed h (update_where (has_hash h) (λ l. record l { row = confirmed_row l.row }) links)
      ≡ true
consumed_confirmed h [] = refl
consumed_confirmed h (l ∷ ls) = ground (arith, consumed_confirmed h ls)

consumed_unsubscribed :
    (h k now : ℕ) (links : List Link)
    → consumed h (
        update_where
          (has_hash k)
          (λ l. record l {
            row = record l.row { unsubscribed_at = or_else l.row.unsubscribed_at (some now) };
          })
          links)
      ≡ consumed h links
consumed_unsubscribed h k now [] = refl
consumed_unsubscribed h k now (l ∷ ls) = ground (arith, consumed_unsubscribed h k now ls)

consumed-do_unsubscribe :
    (now days k h : ℕ) (box : Mailbox)
    → consumed h box.links ≡ true
    → consumed h (do_unsubscribe now days k box).0.links ≡ true
unfolding do_unsubscribe
consumed-do_unsubscribe now days k h box c = ground (arith, consumed_unsubscribed h k now box.links)

confirm_of_consumed :
    (now days h : ℕ) (box : Mailbox)
    → consumed h box.links ≡ true
    → (confirm now days h box).0 ≡ box
unfolding confirm action_row
confirm_of_consumed now days h box c = ground arith

consumed-confirm :
    (now days h : ℕ) (box : Mailbox)
    → (confirm now days h box).1 ≡ Reply.done
    → consumed h (confirm now days h box).0.links ≡ true
unfolding confirm action_row
consumed-confirm now days h box d = ground (arith, consumed_confirmed h box.links)

-- A link that confirmed once changes nothing when it is opened again, at any later time and after
-- any unsubscription: a consumed confirmation cannot reactivate an address.
pub confirm_once :
    (now mid later days h k : ℕ) (box : Mailbox)
    → (confirm now days h box).1 ≡ Reply.done
    → (confirm later days h (do_unsubscribe mid days k (confirm now days h box).0).0).0
      ≡ (do_unsubscribe mid days k (confirm now days h box).0).0
confirm_once now mid later days h k box d =
    confirm_of_consumed later days h _
      (consumed-do_unsubscribe mid days k h _ (consumed-confirm now days h box d))
