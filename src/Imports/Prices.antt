-- ===== src/Imports/Prices.antt =====
-- Closing prices and the summary of a company's: the `prices` branches of `ingest` (apps/worker/ingestion.py)
-- and of `ingest_record` (apps/worker/market.py). A date is the number of its day, a price a number of the
-- database's unit.
pub mod Ordered
pub mod Summary
use meraipo.Prelude.{
  ℕ, ◌+◌, Bool, true, false, not, ◌&&◌, Option, none, some, List, [], ◌∷◌, ◌++◌, ltb, leb, ◌==◌,
  max, min, if◌then◌else◌, any_of, rows_where, first_where, update_first,
}

pub record Price : Type 0 where
  pub company : ℕ
  pub date : ℕ
  pub close : ℕ
  pub high : Option ℕ
  pub low : Option ℕ

pub record Snapshot : Type 0 where
  pub company : ℕ
  pub cmp : ℕ
  pub date : ℕ
  pub ath : ℕ
  pub high_52w : ℕ
  pub low_52w : ℕ

-- `p.high or p.close` and `p.low or p.close`: zero counts as missing.
abbrev pub or_close : Option ℕ → ℕ → ℕ
or_close none close = close
or_close (some x) close = if x == 0 then close else x

abbrev pub peak : Price → ℕ
peak p = or_close p.high p.close

abbrev pub trough : Price → ℕ
trough p = or_close p.low p.close

abbrev pub is_price_of : ℕ → Price → Bool
is_price_of c p = p.company == c

abbrev pub is_snapshot_of : ℕ → Snapshot → Bool
is_snapshot_of c s = s.company == c

-- `ORDER BY price_date`.
abbrev pub insert_by_date : Price → List Price → List Price
insert_by_date p [] = p ∷ []
insert_by_date p (x ∷ xs) =
    let rest = insert_by_date p xs in if leb p.date x.date then p ∷ x ∷ xs else x ∷ rest

abbrev pub by_date : List Price → List Price
by_date [] = []
by_date (x ∷ xs) = insert_by_date x (by_date xs)

-- `history[-1]` of a history that begins with the price.
abbrev pub last_of : Price → List Price → Price
last_of x [] = x
last_of x (y ∷ ys) = last_of y ys

-- `max(f(p) for p in …)` and `min(f(p) for p in …)`.
abbrev pub greatest : (Price → ℕ) → Price → List Price → ℕ
greatest f x [] = f x
greatest f x (y ∷ ys) = max (f x) (greatest f y ys)

abbrev pub least : (Price → ℕ) → Price → List Price → ℕ
least f x [] = f x
least f x (y ∷ ys) = min (f x) (least f y ys)

abbrev pub is_recent : Price → Price → Bool
is_recent last p = leb last.date (p.date + 365)

-- The recent prices, of which the last price is one.
abbrev pub recent_summary : (Price → List Price → ℕ) → Price → List Price → ℕ
recent_summary f last [] = f last []
recent_summary f last (p ∷ ps) = f p ps

abbrev pub summary_of : ℕ → Price → List Price → Snapshot
summary_of c x xs =
    let last = last_of x xs in
    let recent = rows_where (is_recent last) (x ∷ xs) in
    record {
      company = c;
      cmp = last.close;
      date = last.date;
      ath = greatest peak x xs;
      high_52w = recent_summary (greatest peak) last recent;
      low_52w = recent_summary (least trough) last recent;
    }

-- The write to the company's snapshot, which is added where it is missing.
abbrev pub put_snapshot : Snapshot → List Snapshot → List Snapshot
put_snapshot s ss =
    if any_of (is_snapshot_of s.company) ss
    then update_first (is_snapshot_of s.company) (λ _. s) ss
    else ss ++ s ∷ []

abbrev pub summarise_history : ℕ → List Price → List Snapshot → List Snapshot
summarise_history c [] ss = ss
summarise_history c (x ∷ xs) ss = put_snapshot (summary_of c x xs) ss

-- The snapshots after a price of the company was added.
unfoldable pub summarise : ℕ → List Price → List Snapshot → List Snapshot
summarise c prices ss = summarise_history c (by_date (rows_where (is_price_of c) prices)) ss
