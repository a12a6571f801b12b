-- ===== src/Imports/Prices/Summary.antt =====
-- The summary of a company's prices, against all of its prices.
use mathlib.Core.Bool.{false≢true}
use meraipo.Prelude.{
  ℕ, ◌+◌, ◌≡◌, refl, sym, ◌∙◌, ap, inl, inr, Bool, true, false, not, ◌&&◌, ◌||◌, Option, none, some,
  List, [], ◌∷◌, ◌++◌, leb, ◌==◌, any_of, all_of, rows_where, first_where, Bool-cases, arith,
}
use meraipo.Imports.Prices.{
  Price, Snapshot, peak, trough, is_price_of, is_snapshot_of, by_date, last_of, greatest, least,
  is_recent, recent_summary, summary_of, put_snapshot, summarise_history, summarise,
}
use meraipo.Imports.Prices.Ordered.{
  all_of-by_date, any_of-by_date, by_date-ordered, last_latest, any_of-last, greatest_bounds,
  greatest_reached, least_bounds, least_reached, all_of-rows_where, any_of-rows_where, is_empty,
  is_ordered,
}

-- What a snapshot says of a company's prices: the latest date and the close of that day; no price above
-- the high nor, in the 365 days before the latest, above or below the two of the year; each of them reached.
abbrev pub is_dated : ℕ → Price → Bool
is_dated d p = leb d (p.date + 365)

abbrev pub is_latest : List Price → Snapshot → Bool
is_latest ps s =
    all_of (λ p. leb p.date s.date) ps && any_of (λ p. p.date == s.date && p.close == s.cmp) ps

abbrev pub is_highest : List Price → Snapshot → Bool
is_highest ps s = all_of (λ p. leb (peak p) s.ath) ps && any_of (λ p. peak p == s.ath) ps

abbrev pub is_year_high : List Price → Snapshot → Bool
is_year_high ps s =
    all_of (λ p. not (is_dated s.date p) || leb (peak p) s.high_52w) ps
    && any_of (λ p. is_dated s.date p && peak p == s.high_52w) ps

abbrev pub is_year_low : List Price → Snapshot → Bool
is_year_low ps s =
    all_of (λ p. not (is_dated s.date p) || leb s.low_52w (trough p)) ps
    && any_of (λ p. is_dated s.date p && trough p == s.low_52w) ps

abbrev pub is_summary : List Price → Snapshot → Bool
is_summary ps s = (is_latest ps s && is_highest ps s) && (is_year_high ps s && is_year_low ps s)

history_latest :
    (c : ℕ) (x : Price) (xs : List Price)
    → is_ordered (x ∷ xs) ≡ true
    → is_latest (x ∷ xs) (summary_of c x xs) ≡ true
history_latest c x xs h = rw (last_latest x xs h) (
    any_of-last (λ p. p.date == (last_of x xs).date && p.close == (last_of x xs).close) x xs
      (ground arith))

history_highest :
    (c : ℕ) (x : Price) (xs : List Price) → is_highest (x ∷ xs) (summary_of c x xs) ≡ true
history_highest c x xs =
    rw (greatest_bounds peak (greatest peak x xs) x xs (omega arith))
      (greatest_reached peak _ x xs refl)

none_recent : (r : Price → Bool) (ps : List Price) → rows_where r ps ≡ [] → any_of r ps ≡ false
none_recent r [] e = refl
none_recent r (p ∷ ps) e = elim (Bool-cases (r p)) [
  | inl y ↦ absurd (false≢true (ap is_empty (rw y at e)))
  | inr n ↦ rw n (none_recent r ps (rw n at e))
]

-- The extremes of the recent prices, of which there are some.
module _ (r : Price → Bool) (last : Price) (ps : List Price)
    (some_recent : any_of r ps ≡ true) where
  recent_high :
      (rs : List Price)
      → rows_where r ps ≡ rs
      → (all_of (λ p. not (r p) || leb (peak p) (recent_summary (greatest peak) last rs)) ps
          && any_of (λ p. r p && peak p == recent_summary (greatest peak) last rs) ps)
        ≡ true
  recent_high [] e = absurd (false≢true (sym (none_recent r ps e) ∙ some_recent))
  recent_high (y ∷ ys) e =
      rw
        (
          sym (all_of-rows_where r (λ p. leb (peak p) (greatest peak y ys)) ps),
          sym (any_of-rows_where r (λ p. peak p == greatest peak y ys) ps),
          e,
        )
        (rw (greatest_bounds peak (greatest peak y ys) y ys (omega arith))
          (greatest_reached peak (greatest peak y ys) y ys refl))

  recent_low :
      (rs : List Price)
      → rows_where r ps ≡ rs
      → (all_of (λ p. not (r p) || leb (recent_summary (least trough) last rs) (trough p)) ps
          && any_of (λ p. r p && trough p == recent_summary (least trough) last rs) ps)
        ≡ true
  recent_low [] e = absurd (false≢true (sym (none_recent r ps e) ∙ some_recent))
  recent_low (y ∷ ys) e =
      rw
        (
          sym (all_of-rows_where r (λ p. leb (least trough y ys) (trough p)) ps),
          sym (any_of-rows_where r (λ p. trough p == least trough y ys) ps),
          e,
        )
        (rw (least_bounds trough (least trough y ys) y ys (omega arith))
          (least_reached trough (least trough y ys) y ys refl))

some_dated : (x : Price) (xs : List Price) → any_of (is_recent (last_of x xs)) (x ∷ xs) ≡ true
some_dated x xs = any_of-last (is_recent (last_of x xs)) x xs (ground arith)

history_summary :
    (c : ℕ) (x : Price) (xs : List Price)
    → is_ordered (x ∷ xs) ≡ true
    → is_summary (x ∷ xs) (summary_of c x xs) ≡ true
history_summary c x xs h =
    let last = last_of x xs in
    let high = recent_high (is_recent last) last (x ∷ xs) (some_dated x xs) _ refl in
    let low = recent_low (is_recent last) last (x ∷ xs) (some_dated x xs) _ refl in
    rw (history_latest c x xs h, history_highest c x xs) (ground (arith, high, low))

summary-by_date : (ps : List Price) (s : Snapshot) → is_summary (by_date ps) s ≡ is_summary ps s
summary-by_date ps s =
    rw
      (
        all_of-by_date (λ p. leb p.date s.date) ps,
        any_of-by_date (λ p. p.date == s.date && p.close == s.cmp) ps,
        all_of-by_date (λ p. leb (peak p) s.ath) ps,
        any_of-by_date (λ p. peak p == s.ath) ps,
        all_of-by_date (λ p. not (is_dated s.date p) || leb (peak p) s.high_52w) ps,
        any_of-by_date (λ p. is_dated s.date p && peak p == s.high_52w) ps,
        all_of-by_date (λ p. not (is_dated s.date p) || leb s.low_52w (trough p)) ps,
        any_of-by_date (λ p. is_dated s.date p && trough p == s.low_52w) ps,
      )
      refl

put_snapshot-own :
    (s : Snapshot) (ss : List Snapshot)
    → first_where (is_snapshot_of s.company) (put_snapshot s ss) ≡ some s
put_snapshot-own s [] = ground arith
put_snapshot-own s (x ∷ xs) = ground (arith, put_snapshot-own s xs)

put_snapshot-other :
    (c : ℕ) (s : Snapshot) (ss : List Snapshot)
    → is_snapshot_of c s ≡ false
    → first_where (is_snapshot_of c) (put_snapshot s ss) ≡ first_where (is_snapshot_of c) ss
put_snapshot-other c s [] h = ground arith
put_snapshot-other c s (x ∷ xs) h = ground (arith, put_snapshot-other c s xs)

abbrev pub is_summed_by : List Price → Option Snapshot → Bool
is_summed_by ps none = false
is_summed_by ps (some s) = is_summary ps s

-- Whether the company's snapshot sums up its prices.
abbrev pub is_summed : ℕ → List Price → List Snapshot → Bool
is_summed c prices ss =
    is_summed_by (rows_where (is_price_of c) prices) (first_where (is_snapshot_of c) ss)

history_summed :
    (c : ℕ) (ps hs : List Price) (ss : List Snapshot)
    → by_date ps ≡ hs
    → is_ordered hs ≡ true
    → any_of (λ p. true) hs ≡ true
    → is_summed_by ps (first_where (is_snapshot_of c) (summarise_history c hs ss)) ≡ true
history_summed c ps [] ss e o h = absurd (false≢true h)
history_summed c ps (x ∷ xs) ss e o h = rw (put_snapshot-own (summary_of c x xs) ss) (
    sym (summary-by_date ps (summary_of c x xs))
    ∙ ap (λ y. is_summary y (summary_of c x xs)) e
    ∙ history_summary c x xs o)

any_of-and_true : (r : Price → Bool) (ps : List Price) → any_of (λ p. r p && true) ps ≡ any_of r ps
any_of-and_true r [] = refl
any_of-and_true r (p ∷ ps) = ground (arith, any_of-and_true r ps)

pub summarise_summed :
    (c : ℕ) (prices : List Price) (ss : List Snapshot)
    → any_of (is_price_of c) prices ≡ true
    → is_summed c prices (summarise c prices ss) ≡ true
unfolding summarise
summarise_summed c prices ss h =
    let ps = rows_where (is_price_of c) prices in
    history_summed c ps (by_date ps) ss refl (by_date-ordered ps) (
      any_of-by_date (λ p. true) ps
      ∙ any_of-rows_where (is_price_of c) (λ p. true) prices
      ∙ any_of-and_true (is_price_of c) prices
      ∙ h)

history-other :
    (c d : ℕ) (hs : List Price) (ss : List Snapshot)
    → (d == c) ≡ false
    → first_where (is_snapshot_of c) (summarise_history d hs ss) ≡ first_where (is_snapshot_of c) ss
history-other c d [] ss h = refl
history-other c d (x ∷ xs) ss h = put_snapshot-other c (summary_of d x xs) ss h

rows_where-other :
    (c : ℕ) (p : Price) (ps : List Price)
    → is_price_of c p ≡ false
    → rows_where (is_price_of c) (ps ++ p ∷ []) ≡ rows_where (is_price_of c) ps
rows_where-other c p [] h = rw h refl
rows_where-other c p (x ∷ xs) h = rw (rows_where-other c p xs h) refl

other_any :
    (c : ℕ) (p : Price) (ps : List Price)
    → is_price_of c p ≡ false
    → any_of (is_price_of c) ps ≡ any_of (is_price_of c) (ps ++ p ∷ [])
other_any c p [] h = rw h refl
other_any c p (x ∷ xs) h = rw (other_any c p xs h) refl

-- Every company with prices has a snapshot that sums them up.
abbrev pub IsSummed : List Price → List Snapshot → Type 0
IsSummed prices ss = (c : ℕ) → any_of (is_price_of c) prices ≡ true → is_summed c prices ss ≡ true

-- A price that is added, and the company's snapshot made again, leave every company summed up.
pub summarise-IsSummed :
    (p : Price) (prices : List Price) (ss : List Snapshot)
    → IsSummed prices ss
    → IsSummed (prices ++ p ∷ []) (summarise p.company (prices ++ p ∷ []) ss)
unfolding summarise
summarise-IsSummed p prices ss v c h = elim (Bool-cases (p.company == c)) [
  | inl y ↦
      let e : p.company ≡ c = ground arith in
      ap (λ x. is_summed c (prices ++ p ∷ []) (summarise x (prices ++ p ∷ []) ss)) e
      ∙ summarise_summed c (prices ++ p ∷ []) ss h
  | inr n ↦
      ap
        (λ x.
          is_summed_by x
            (first_where (is_snapshot_of c) (summarise p.company (prices ++ p ∷ []) ss)))
        (rows_where-other c p prices n)
      ∙ ap (is_summed_by (rows_where (is_price_of c) prices)) (history-other c p.company _ ss n)
      ∙ v c (other_any c p prices n ∙ h)
]
