-- ===== src/Ipo/Progress.antt =====
-- How the state of packages/shared/ipo_lifecycle.py changes with the day, and what its public form
-- and the tests on alerts say of it.
use meraipo.Prelude.{
  Bool-cases, is_some, inl, inr, ℕ, ◌≤◌, ◌≡◌, refl, ◌↔◌, true, false, Option, some, List, [], ◌∷◌,
  arith, holds_of, leb,
}
use meraipo.Ipo.{
  RawStatus, State, Ipo, IpoDates, Guide, Row, upcoming, opened, closed, listed, listing_today,
  allotment_pending, allotment_completed, announced, withdrawn, cancelled, exact_name, upper_name,
  is_void, is_listed, after_close, lifecycle, public_status, reconcile_row, reconcile_lifecycle,
  eligible_opening, is_live,
}

-- How far an issue has come: the order in which the states follow one another, the two void states
-- last.
abbrev pub rank : State → ℕ
rank announced = 0
rank upcoming = 1
rank opened = 2
rank closed = 3
rank allotment_pending = 4
rank allotment_completed = 5
rank listing_today = 6
rank listed = 7
rank withdrawn = 8
rank cancelled = 9

-- An IPO with known dates shows as open on exactly the days from its opening to its closing date,
-- unless its raw status is withdrawn, cancelled or listed, or its listing date has come.
public_open_iff :
    (ipo : Ipo) (dates : IpoDates) (guide : Option Guide) {o c : ℕ} (t : ℕ)
    → dates.open_date ≡ some o
    → dates.close_date ≡ some c
    → (public_status (lifecycle ipo (some dates) guide t) ≡ opened) ↔ (
        (is_void (exact_name ipo.raw_status) ≡ false)
        × (is_listed (exact_name ipo.raw_status) ≡ false)
        × (holds_of dates.listing_date (λ d. leb d t) ≡ false)
        × (o ≤ t)
        × (t ≤ c))
unfolding lifecycle public_status after_close
public_open_iff ipo dates guide t ho hc = (ground arith, ground arith)

reconcile_row_idem : (t : ℕ) (r : Row) → reconcile_row t (reconcile_row t r) ≡ reconcile_row t r
unfolding reconcile_row lifecycle
reconcile_row_idem t r = elim (Bool-cases (is_some r.ipo.source_provider)) [
  | inl e ↦ rw e (rw e)
  | inr e ↦ rw e (rw e)
]

-- Reconciling all rows twice on one day changes nothing that reconciling them once did not: the
-- stored state is a function of the raw status, the dates and the guide, not of the stored state.
reconcile_lifecycle_idem :
    (t : ℕ) (rows : List Row)
    → reconcile_lifecycle t (reconcile_lifecycle t rows) ≡ reconcile_lifecycle t rows
unfolding reconcile_lifecycle
reconcile_lifecycle_idem t [] = refl
reconcile_lifecycle_idem t (r ∷ rows) = cc (reconcile_row_idem t r, reconcile_lifecycle_idem t rows)

live_not_void :
    (raw : Option RawStatus) → is_live (upper_name raw) ≡ true → is_void (exact_name raw) ≡ false
live_not_void raw h = ground arith

-- An opening alert goes out only for an issue that is open today: if the alert's test holds, the
-- close has not passed, the listing date has not come and the raw status is not listed, then the
-- lifecycle is open.
eligible_opening_open :
    (ipo : Ipo) (dates : IpoDates) (guide : Option Guide) {c : ℕ} (t : ℕ)
    → eligible_opening ipo (some dates) guide t ≡ true
    → dates.close_date ≡ some c
    → t ≤ c
    → is_listed (exact_name ipo.raw_status) ≡ false
    → holds_of dates.listing_date (λ d. leb d t) ≡ false
    → lifecycle ipo (some dates) guide t ≡ opened
unfolding lifecycle eligible_opening
eligible_opening_open ipo dates guide t e hc le nl nd = ground (arith, live_not_void ipo.raw_status)
