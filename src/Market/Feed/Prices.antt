-- ===== src/Market/Feed/Prices.antt =====
-- The branch of prices of `ingest_record` (apps/worker/market.py).
use mathlib.Core.Path.{subst}
use meraipo.Prelude.{
  ℕ, ◌≤◌, ◌≡◌, refl, sym, inl, inr, Bool, true, false, not, ◌&&◌, Option, none, some, List, [], ◌∷◌,
  ◌++◌, ◌==◌, first_where, update_first, Bool-cases, arith,
}
use meraipo.Market.Match.{Outcome, raised, returned, Provider, nse, ipoweb, other}
use meraipo.Market.Feed.{
  Price, PriceData, is_price_at, price_of, price_over, ingest_price, is_from, is_at_least,
  same_provider,
}

-- The prices that a call leaves.
abbrev pub prices_after : List Price → Outcome (List Price × Bool) → List Price
prices_after ps (raised e) = ps
prices_after ps (returned (q, b)) = q

abbrev pub time_of : Option Price → ℕ
time_of none = 0
time_of (some p) = elim p.source_timestamp [ none ↦ 0 | some t ↦ t ]

-- The time of a company's price of a date, or zero.
abbrev pub time_at : ℕ → ℕ → List Price → ℕ
time_at c date ps = time_of (first_where (is_price_at c date) ps)

same_provider_refl : (p : Provider) → same_provider p p ≡ true
same_provider_refl nse = refl
same_provider_refl ipoweb = refl
same_provider_refl (other a) = ground arith

append-time :
    (c date : ℕ) (q : Price) (ps : List Price) → time_at c date ps ≤ time_at c date (ps ++ q ∷ [])
append-time c date q [] = ground arith
append-time c date q (p ∷ ps) = ground (arith, append-time c date q ps)

put-first :
    (c date : ℕ) (q : Price) (ps : List Price)
    → is_price_at c date q ≡ true
    → (p : Price) → first_where (is_price_at c date) ps ≡ some p
    → first_where (is_price_at c date) (update_first (is_price_at c date) (λ _. q) ps) ≡ some q
put-first c date q [] h p e = ground arith
put-first c date q (x ∷ xs) h p e = ground (arith, put-first c date q xs h p)

put-other :
    (c date k day : ℕ) (q : Price) (ps : List Price)
    → is_price_at c date q ≡ true
    → (k == c && day == date) ≡ false
    → first_where (is_price_at k day) (update_first (is_price_at c date) (λ _. q) ps)
      ≡ first_where (is_price_at k day) ps
put-other c date k day q [] h n = refl
put-other c date k day q (x ∷ xs) h n = ground (arith, put-other c date k day q xs)

later : (t : ℕ) (o : Option ℕ) → is_at_least t o ≡ false → (elim o [ none ↦ 0 | some x ↦ x ]) ≤ t
later t none h = omega arith
later t (some x) h = ground arith

own-time :
    (c : ℕ) (provider : Provider) (d : PriceData) (ps : List Price) (p : Price)
    → first_where (is_price_at c d.date) ps ≡ some p
    → is_at_least d.source_timestamp p.source_timestamp ≡ false
    → time_at c d.date ps
      ≤ time_at c d.date (update_first (is_price_at c d.date) (λ _. price_of c provider d) ps)
own-time c provider d ps p e b =
    rw (e, put-first c d.date (price_of c provider d) ps (ground arith) p e)
      (later d.source_timestamp p.source_timestamp b)

put-time :
    (c k day : ℕ) (provider : Provider) (d : PriceData) (ps : List Price) (p : Price)
    → first_where (is_price_at c d.date) ps ≡ some p
    → is_at_least d.source_timestamp p.source_timestamp ≡ false
    → time_at k day ps
      ≤ time_at k day (update_first (is_price_at c d.date) (λ _. price_of c provider d) ps)
put-time c k day provider d ps p e b = elim (Bool-cases (k == c && day == d.date)) [
  | inr n ↦ rw (put-other c d.date k day (price_of c provider d) ps (ground arith) n) (omega arith)
  | inl y ↦
      let own : k ≡ c = ground arith in
      let dated : day ≡ d.date = ground arith in
      let f : ℕ → ℕ → Type 0 = λ x z.
        time_at x z ps
        ≤ time_at x z (update_first (is_price_at c d.date) (λ _. price_of c provider d) ps) in
      subst (λ x. f x day) (sym own) (subst (f c) (sym dated) (own-time c provider d ps p e b))
]

over-time :
    (c k day : ℕ) (provider : Provider) (d : PriceData) (ps : List Price) (o : Option Price)
    → first_where (is_price_at c d.date) ps ≡ o
    → time_at k day ps ≤ time_at k day (prices_after ps (price_over c provider d ps o))
over-time c k day provider d ps none e = append-time k day (price_of c provider d) ps
over-time c k day provider d ps (some p) e =
    elim (Bool-cases (not (is_from provider p.source_provider) && not (p.close == d.close))) [
      | inl y ↦ rw y (ground arith)
      | inr n ↦ elim (Bool-cases (is_at_least d.source_timestamp p.source_timestamp)) [
        | inl a ↦ rw (n, a) (ground arith)
        | inr b ↦ rw (n, b) (put-time c k day provider d ps p e b)
      ]
    ]

-- A price of a feed never takes the place of a later one: whatever the record, no price of any company
-- and date has an earlier time after it.
pub ingest_price_forward :
    (c k day : ℕ) (listed : Bool) (provider : Provider) (d : PriceData) (ps : List Price)
    → time_at k day ps ≤ time_at k day (prices_after ps (ingest_price c listed provider d ps))
unfolding ingest_price
ingest_price_forward c k day true provider d ps =
    over-time c k day provider d ps (first_where (is_price_at c d.date) ps) refl
ingest_price_forward c k day false provider d ps = omega arith

-- A record that comes again.
abbrev called_twice :
    ℕ → Bool → Provider → PriceData → Outcome (List Price × Bool) → Outcome (List Price × Bool)
called_twice c listed provider d (raised e) = raised e
called_twice c listed provider d (returned (ps, b)) = ingest_price c listed provider d ps

abbrev known : Outcome (List Price × Bool) → Outcome (List Price × Bool)
known (raised e) = raised e
known (returned (ps, b)) = returned (ps, false)

held :
    (c : ℕ) (provider : Provider) (d : PriceData) (ps : List Price)
    → first_where (is_price_at c d.date) ps ≡ some (price_of c provider d)
    → ingest_price c true provider d ps ≡ returned (ps, false)
unfolding ingest_price
held c provider d ps e = rw (ingest_price, e, same_provider_refl provider) (ground arith)

append-first :
    (c date : ℕ) (q : Price) (ps : List Price)
    → is_price_at c date q ≡ true
    → first_where (is_price_at c date) ps ≡ none
    → first_where (is_price_at c date) (ps ++ q ∷ []) ≡ some q
append-first c date q [] h e = ground arith
append-first c date q (x ∷ xs) h e = ground (arith, append-first c date q xs)

over_again :
    (c : ℕ) (provider : Provider) (d : PriceData) (ps : List Price) (o : Option Price)
    → first_where (is_price_at c d.date) ps ≡ o
    → called_twice c true provider d (price_over c provider d ps o)
      ≡ known (price_over c provider d ps o)
unfolding ingest_price
over_again c provider d ps none e =
    held c provider d (ps ++ price_of c provider d ∷ [])
      (append-first c d.date (price_of c provider d) ps (ground arith) e)
over_again c provider d ps (some p) e =
    elim (Bool-cases (not (is_from provider p.source_provider) && not (p.close == d.close))) [
      | inl y ↦ rw y refl
      | inr n ↦ elim (Bool-cases (is_at_least d.source_timestamp p.source_timestamp)) [
        | inl a ↦ rw (n, a, ingest_price, e, n, a) refl
        | inr b ↦
            rw (n, b)
              (held c provider d
                (update_first (is_price_at c d.date) (λ _. price_of c provider d) ps)
                (put-first c d.date (price_of c provider d) ps (ground arith) p e))
      ]
    ]

-- A price that comes again from its feed, after it was not refused, writes nothing.
ingest_price_again :
    (c : ℕ) (listed : Bool) (provider : Provider) (d : PriceData) (ps : List Price)
    → called_twice c listed provider d (ingest_price c listed provider d ps)
      ≡ known (ingest_price c listed provider d ps)
unfolding ingest_price
ingest_price_again c true provider d ps =
    over_again c provider d ps (first_where (is_price_at c d.date) ps) refl
ingest_price_again c false provider d ps = refl
