-- ===== src/Bhavcopy/Closes.antt =====
-- `import_file`, `refresh_summary` and `refresh_listing_prices` of apps/worker/bhavcopy.py: the stored
-- closes, their revisions, and what is shown of them.
pub mod Kept
pub mod Summary
use meraipo.Prelude.{
  ℕ, suc, ◌+◌, ◌-◌, Bool, true, false, not, ◌&&◌, ◌||◌, Option, none, some, List, [], ◌∷◌, ◌++◌,
  ltb, leb, ◌==◌, if◌then◌else◌, opt_is, holds_of, or_else, any_of, rows_where, map, is_some, max,
  min, update_where, first_where,
}
use meraipo.Schedule.Slots.{Exchange, nse, bse}
use meraipo.Bhavcopy.Fields.{
  Row, Prices, Series, eq_series, be, bz, sm, st, sz, other_series, is_nse,
}
use meraipo.Bhavcopy.Matching.{Matched}

-- The columns that a row of a file gives.
pub record Values : Type 0 where
  pub prices : Prices
  pub security_id : ℕ
  pub isin : ℕ
  pub series : Series

pub record Close : Type 0 where
  pub company : ℕ
  pub exchange : Exchange
  pub trade_date : ℕ
  pub values : Values
  pub file : ℕ

-- An earlier version of a close, under what identifies the close.
pub record Revision : Type 0 where
  pub company : ℕ
  pub file : ℕ
  pub values : Values

abbrev pub same_exchange : Exchange → Exchange → Bool
same_exchange nse nse = true
same_exchange bse bse = true
same_exchange _ _ = false

abbrev pub series_code : Series → ℕ
series_code eq_series = 0
series_code be = 1
series_code bz = 2
series_code sm = 3
series_code st = 4
series_code sz = 5
series_code (other_series k) = 6 + k

abbrev pub same_option : Option ℕ → Option ℕ → Bool
same_option none none = true
same_option (some a) (some b) = a == b
same_option _ _ = false

abbrev pub same_values : Values → Values → Bool
same_values v u =
    (same_option v.prices.opening u.prices.opening
      && same_option v.prices.high u.prices.high
      && same_option v.prices.low u.prices.low
      && v.prices.close == u.prices.close)
    && (same_option v.prices.previous_close u.prices.previous_close
        && same_option v.prices.volume u.prices.volume
        && v.security_id == u.security_id
        && v.isin == u.isin
        && series_code v.series == series_code u.series)

abbrev pub values_of : Row → Values
values_of r = record {
  prices = r.prices;
  security_id = r.security_id;
  isin = r.isin;
  series = r.series;
}

abbrev pub is_close_of : Exchange → ℕ → ℕ → Close → Bool
is_close_of exchange day k c =
    same_exchange c.exchange exchange && c.trade_date == day && c.company == k

-- The tables and the counters that the loop writes, with the companies that it affects.
pub record Import : Type 0 where
  pub closes : List Close
  pub revisions : List Revision
  pub inserted : ℕ
  pub updated : ℕ
  pub unchanged : ℕ
  pub affected : List ℕ

-- The new values of a close, from a file.
abbrev pub set_values : ℕ → Values → Close → Close
set_values file v c = record c { values = v; file = file }

-- One turn of the loop, with the close that the company had before the loop began.
unfoldable pub store_row : Exchange → ℕ → ℕ → Matched → Import → Option Close → Import
store_row exchange day file q s none = record s {
  closes =
      s.closes
      ++ record {
        company = q.company;
        exchange = exchange;
        trade_date = day;
        values = values_of q.row;
        file = file;
      }
        ∷ [];
  inserted = s.inserted + 1;
  affected = q.company ∷ s.affected;
}
store_row exchange day file q s (some c) =
    if same_values c.values (values_of q.row)
    then record s { unchanged = s.unchanged + 1 }
    else record s {
      closes =
          update_where (is_close_of exchange day q.company) (set_values file (values_of q.row))
            s.closes;
      revisions = record { company = q.company; file = c.file; values = c.values } ∷ s.revisions;
      updated = s.updated + 1;
      affected = q.company ∷ s.affected;
    }

unfoldable pub import_row : Exchange → ℕ → ℕ → List Close → Matched → Import → Import
import_row exchange day file existing q s =
    store_row exchange day file q s (first_where (is_close_of exchange day q.company) existing)

unfoldable pub import_rows : Exchange → ℕ → ℕ → List Close → List Matched → Import → Import
import_rows exchange day file existing [] s = s
import_rows exchange day file existing (q ∷ qs) s =
    import_rows exchange day file existing qs (import_row exchange day file existing q s)

abbrev pub new_import : List Close → List Revision → Import
new_import closes revisions = record {
  closes = closes;
  revisions = revisions;
  inserted = 0;
  updated = 0;
  unchanged = 0;
  affected = [];
}

-- What is shown of a company's prices.
pub record Snapshot : Type 0 where
  pub cmp : Option ℕ
  pub ath : Option ℕ
  pub high_52w : Option ℕ
  pub low_52w : Option ℕ
  pub price_date : Option ℕ
  pub closing_exchange : Option Exchange
  pub previous_close : Option ℕ

abbrev pub is_of : Exchange → ℕ → Close → Bool
is_of exchange k c = c.company == k && same_exchange c.exchange exchange

abbrev later_of : Close → Option Close → Close
later_of c none = c
later_of c (some d) = if leb d.trade_date c.trade_date then c else d

-- `order_by(trade_date.desc()).limit(1)`
abbrev pub latest_close : List Close → Option Close
latest_close [] = none
latest_close (c ∷ cs) = some (later_of c (latest_close cs))

abbrev pub high_of : Close → ℕ
high_of c = elim c.values.prices.high [ none ↦ c.values.prices.close | some h ↦ h ]

abbrev pub low_of : Close → ℕ
low_of c = elim c.values.prices.low [ none ↦ c.values.prices.close | some l ↦ l ]

-- `max` and `min` over the rows; `None` over none.
abbrev pub highest : List Close → Option ℕ
highest [] = none
highest (c ∷ cs) = some (elim (highest cs) [ none ↦ high_of c | some h ↦ max (high_of c) h ])

abbrev pub lowest : List Close → Option ℕ
lowest [] = none
lowest (c ∷ cs) = some (elim (lowest cs) [ none ↦ low_of c | some l ↦ min (low_of c) l ])

abbrev pub since : ℕ → Close → Bool
since day c = leb (day - 365) c.trade_date

abbrev pub empty_snapshot : Snapshot
empty_snapshot = record {
  cmp = none;
  ath = none;
  high_52w = none;
  low_52w = none;
  price_date = none;
  closing_exchange = none;
  previous_close = none;
}

-- A chart that shows another exchange.
abbrev pub shows_other : Option Exchange → Exchange → Bool
shows_other none e = false
shows_other (some s) e = not (same_exchange s e)

-- `none` is the error of a company without closes.
unfoldable pub summarise : Exchange → List Close → Option Snapshot
summarise exchange own = elim (latest_close own) [
  | none ↦ none
  | some latest ↦ some (record {
    cmp = some latest.values.prices.close;
    ath = highest own;
    high_52w = highest (rows_where (since latest.trade_date) own);
    low_52w = lowest (rows_where (since latest.trade_date) own);
    price_date = some latest.trade_date;
    closing_exchange = some exchange;
    previous_close = latest.values.prices.previous_close;
  })
]

unfoldable pub refresh_summary : Exchange → ℕ → List Close → Option Snapshot → Option Snapshot
refresh_summary exchange k closes snapshot =
    let s : Snapshot = elim snapshot [ none ↦ empty_snapshot | some s ↦ s ] in
    if shows_other s.closing_exchange exchange
    then some s
    else summarise exchange (rows_where (is_of exchange k) closes)

-- The three columns of a company that `refresh_listing_prices` writes.
pub record Listing : Type 0 where
  pub price : Option ℕ
  pub date : Option ℕ
  pub exchange : Option Exchange

abbrev no_listing : Listing
no_listing = record { price = none; date = none; exchange = none }

-- The close of the listing day on the exchange of the chart, for one company.
unfoldable pub listing_price : ℕ → Option ℕ → Option Exchange → List Close → Listing
listing_price k (some day) (some exchange) closes =
    elim (first_where (is_close_of exchange day k) closes) [
      | none ↦ no_listing
      | some c ↦ record {
        price = some c.values.prices.close;
        date = some day;
        exchange = some exchange;
      }
    ]
listing_price k _ _ closes = no_listing
