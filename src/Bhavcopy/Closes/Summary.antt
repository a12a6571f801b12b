-- ===== src/Bhavcopy/Closes/Summary.antt =====
-- What `refresh_summary` of apps/worker/bhavcopy.py shows.
use mathlib.Core.Path.{subst}
use mathlib.Core.Option.{none-ne-some, some-injective}
use meraipo.Prelude.{
  ℕ, ◌≡◌, ◌≤◌, ◌==◌, ◌&&◌, any_of, true, Option, sym, ap, ◌∙◌, inl, inr, false, none, some, List,
  [], ◌∷◌, arith, rows_where, All, Bool-cases,
}
use meraipo.Schedule.Slots.{Exchange}
use meraipo.Bhavcopy.Closes.{
  Close, Snapshot, same_option, later_of, is_of, latest_close, high_of, highest, shows_other,
  summarise, refresh_summary,
}

summarise_exchange :
    (exchange : Exchange) (own : List Close) (t : Snapshot)
    → summarise exchange own ≡ some t
    → t.closing_exchange ≡ some exchange
unfolding summarise
summarise_exchange exchange [] t r = absurd (none-ne-some t r)
summarise_exchange exchange (c ∷ cs) t r = sym (ap (λ u. u.closing_exchange) (some-injective _ t r))

shows_same : (e exchange : Exchange) → shows_other (some e) exchange ≡ false → exchange ≡ e
shows_same e exchange h = ground arith

-- A chart stays on the exchange that it has, whichever file comes later.
refresh_summary_exchange :
    (exchange e : Exchange) (k : ℕ) (closes : List Close) (s t : Snapshot)
    → s.closing_exchange ≡ some e
    → refresh_summary exchange k closes (some s) ≡ some t
    → t.closing_exchange ≡ some e
unfolding refresh_summary
refresh_summary_exchange exchange e k closes s t h r =
    elim (Bool-cases (shows_other s.closing_exchange exchange)) [
      | inl other ↦
          sym (ap (λ u. u.closing_exchange) (some-injective s t (rw (refresh_summary, other) at r)))
          ∙ h
      | inr same ↦
          summarise_exchange exchange (rows_where (is_of exchange k) closes) t
            (rw (refresh_summary, same) at r)
          ∙ ap some (shows_same e exchange (rw h at same))
    ]

-- A close that is no later than a day and no higher than a price.
abbrev pub Within : ℕ → ℕ → Close → Type 0
Within day top c = (c.trade_date ≤ day) × (high_of c ≤ top)

abbrev top_of : List Close → ℕ
top_of cs = elim (highest cs) [ none ↦ 0 | some h ↦ h ]

abbrev last_day : List Close → ℕ
last_day cs = elim (latest_close cs) [ none ↦ 0 | some c ↦ c.trade_date ]

All-Within :
    (d e t u : ℕ) (cs : List Close) → d ≤ e → t ≤ u → All (Within d t) cs → All (Within e u) cs
All-Within d e t u [] p q a = tt
All-Within d e t u (c ∷ cs) p q ((x, y), a) =
    ((omega arith, omega arith), All-Within d e t u cs p q a)

latest-All : (cs : List Close) → All (Within (last_day cs) (top_of cs)) cs
latest-All [] = tt
latest-All (c ∷ cs) = (
  (ground arith, ground arith),
  All-Within (last_day cs) _ (top_of cs) _ cs (ground arith) (ground arith) (latest-All cs),
)

-- The closes of a company on an exchange.
abbrev pub own_closes : Exchange → ℕ → List Close → List Close
own_closes exchange k = rows_where (is_of exchange k)

abbrev pub shown_day : Snapshot → ℕ
shown_day s = elim s.price_date [ none ↦ 0 | some d ↦ d ]

abbrev pub shown_top : Snapshot → ℕ
shown_top s = elim s.ath [ none ↦ 0 | some p ↦ p ]

-- Some close of the day has the price as its close.
abbrev pub ClosesAt : ℕ → Option ℕ → List Close → Type 0
ClosesAt day price cs =
    any_of (λ c. c.trade_date == day && same_option (some c.values.prices.close) price) cs ≡ true

top_of-Reached :
    (c : Close) (cs : List Close) → any_of (λ d. high_of d == top_of (c ∷ cs)) (c ∷ cs) ≡ true
top_of-Reached c [] = ground arith
top_of-Reached c (d ∷ ds) = ground (arith, top_of-Reached d ds)

day_close-Reached :
    (c : Close) (cs : List Close)
    → let l = later_of c (latest_close cs) in
      any_of
        (λ d. d.trade_date == l.trade_date && d.values.prices.close == l.values.prices.close)
        (c ∷ cs)
      ≡ true
day_close-Reached c [] = ground arith
day_close-Reached c (d ∷ ds) = ground (arith, day_close-Reached d ds)

-- What a chart says of the closes that it is made of: its day is the latest, its price the close of
-- that day, and its all-time high the highest of the highs.
pub record Shows (t : Snapshot) (own : List Close) : Type 0 where
  pub bounds : All (Within (shown_day t) (shown_top t)) own
  pub top : any_of (λ c. high_of c == shown_top t) own ≡ true
  pub latest : ClosesAt (shown_day t) t.cmp own

summarise-Shows :
    (exchange : Exchange) (own : List Close) (t : Snapshot)
    → summarise exchange own ≡ some t
    → Shows t own
unfolding summarise
summarise-Shows exchange [] t r = absurd (none-ne-some t r)
summarise-Shows exchange (c ∷ cs) t r =
    subst (λ u. Shows u (c ∷ cs)) (some-injective _ t r)
      (record {
        bounds = latest-All (c ∷ cs);
        top = top_of-Reached c cs;
        latest = day_close-Reached c cs;
      })

-- A chart that is refreshed from a company's closes on its exchange shows the latest of their days,
-- the close of that day, and as the all-time high the highest of their highs: no close is of a later
-- day or has a higher high, and some close has each.
pub refresh_summary-Shows :
    (exchange : Exchange) (k : ℕ) (closes : List Close) (s t : Snapshot)
    → shows_other s.closing_exchange exchange ≡ false
    → refresh_summary exchange k closes (some s) ≡ some t
    → Shows t (own_closes exchange k closes)
unfolding refresh_summary
refresh_summary-Shows exchange k closes s t same r =
    summarise-Shows exchange (own_closes exchange k closes) t (rw (refresh_summary, same) at r)
