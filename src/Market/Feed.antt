-- ===== src/Market/Feed.antt =====
-- `ingest_record` of apps/worker/market.py: the branches of results, prices and grey-market premiums. A
-- time, a date, a price and a fingerprint are numbers.
pub mod Prices
pub mod Distinct
use meraipo.Prelude.{
  opt_is, ℕ, ◌+◌, Bool, true, false, not, ◌&&◌, ◌||◌, Option, none, some, List, [], ◌∷◌, ◌++◌, ltb,
  leb, ◌==◌, max, if◌then◌else◌, is_some, any_of, rows_where, first_where, update_first,
}
use meraipo.Market.Match.{
  Outcome, raised, returned, FeedError, source_conflict, unmapped_identifier, ipo_mapping_missing,
  Provider, nse, ipoweb, other,
}

abbrev pub same_provider : Provider → Provider → Bool
same_provider nse nse = true
same_provider ipoweb ipoweb = true
same_provider (other a) (other b) = a == b
same_provider _ _ = false

-- Whether a row's source, which may be missing, is the provider.
abbrev pub is_from : Provider → Option Provider → Bool
is_from p none = false
is_from p (some q) = same_provider q p

-- Whether a row's time is given and at least, or after, a time.
abbrev pub is_at_least : ℕ → Option ℕ → Bool
is_at_least t none = false
is_at_least t (some x) = leb t x

abbrev pub is_after : ℕ → Option ℕ → Bool
is_after t none = false
is_after t (some x) = ltb t x

pub record Price : Type 0 where
  pub company : ℕ
  pub date : ℕ
  pub close : ℕ
  pub rest : ℕ
  pub source_timestamp : Option ℕ
  pub source_provider : Option Provider

-- A closing price of a feed; `rest` stands for its other fields.
pub record PriceData : Type 0 where
  pub date : ℕ
  pub close : ℕ
  pub rest : ℕ
  pub source_timestamp : ℕ

abbrev pub is_price_at : ℕ → ℕ → Price → Bool
is_price_at c date p = p.company == c && p.date == date

abbrev pub price_of : ℕ → Provider → PriceData → Price
price_of c provider d = record {
  company = c;
  date = d.date;
  close = d.close;
  rest = d.rest;
  source_timestamp = some d.source_timestamp;
  source_provider = some provider;
}

-- The prices after a record, and whether a row was written.
abbrev pub price_over :
    ℕ → Provider → PriceData → List Price → Option Price → Outcome (List Price × Bool)
price_over c provider d ps none = returned (ps ++ price_of c provider d ∷ [], true)
price_over c provider d ps (some p) =
    if not (is_from provider p.source_provider) && not (p.close == d.close)
    then raised source_conflict
    else if is_at_least d.source_timestamp p.source_timestamp
    then returned (ps, false)
    else returned (update_first (is_price_at c d.date) (λ _. price_of c provider d) ps, true)

-- The branch of prices, for a company with whether its IPO is listed. What it does to the summary of
-- the prices is `Imports.Prices.summarise`.
unfoldable pub ingest_price :
    ℕ → Bool → Provider → PriceData → List Price → Outcome (List Price × Bool)
ingest_price c listed provider d ps =
    if not listed
    then returned (ps, false)
    else price_over c provider d ps (first_where (is_price_at c d.date) ps)

-- A quarterly or annual result; the period is the quarter or the year, the statement its type.
pub record Filed : Type 0 where
  pub company : ℕ
  pub period : ℕ
  pub revision : ℕ
  pub statement : ℕ
  pub payload_hash : Option ℕ
  pub source_timestamp : Option ℕ
  pub source_provider : Option Provider

pub record ResultData : Type 0 where
  pub period : ℕ
  pub statement : ℕ
  pub digest : ℕ
  pub source_timestamp : ℕ

abbrev pub is_of : ℕ → ℕ → Filed → Bool
is_of c t r = r.company == c && r.period == t

-- `ORDER BY revision DESC`.
abbrev pub insert_newest : Filed → List Filed → List Filed
insert_newest r [] = r ∷ []
insert_newest r (x ∷ xs) =
    let rest = insert_newest r xs in if leb x.revision r.revision then r ∷ x ∷ xs else x ∷ rest

abbrev pub newest_first : List Filed → List Filed
newest_first [] = []
newest_first (x ∷ xs) = insert_newest x (newest_first xs)

abbrev pub has_hash : ℕ → Filed → Bool
has_hash h r = opt_is r.payload_hash h

abbrev pub has_statement : ℕ → Filed → Bool
has_statement s r = r.statement == s

-- `max((p.revision for p in prior), default=0)`.
abbrev pub last_revision : List Filed → ℕ
last_revision [] = 0
last_revision (r ∷ rs) = max r.revision (last_revision rs)

abbrev pub filed_of : ℕ → Provider → ResultData → List Filed → Filed
filed_of c provider d prior = record {
  company = c;
  period = d.period;
  revision = last_revision prior + 1;
  statement = d.statement;
  payload_hash = some d.digest;
  source_timestamp = some d.source_timestamp;
  source_provider = some provider;
}

abbrev pub add_filed :
    ℕ → Provider → ResultData → List Filed → List Filed → Outcome (List Filed × Bool)
add_filed c provider d prior rs = returned (rs ++ filed_of c provider d prior ∷ [], true)

-- The tests on the newest row of the same statement type.
abbrev pub filed_over :
    ℕ → Provider → ResultData → List Filed → List Filed → Option Filed → Outcome (List Filed × Bool)
filed_over c provider d prior rs none = add_filed c provider d prior rs
filed_over c provider d prior rs (some r) =
    if not (is_from provider r.source_provider)
    then raised source_conflict
    else if is_after d.source_timestamp r.source_timestamp
    then returned (rs, false)
    else add_filed c provider d prior rs

abbrev pub result_over :
    ℕ → Provider → ResultData → List Filed → List Filed → Outcome (List Filed × Bool)
result_over c provider d prior rs =
    if any_of (has_hash d.digest) prior
    then returned (rs, false)
    else filed_over c provider d prior rs (first_where (has_statement d.statement) prior)

-- The branch of results, on the table of the record's period type.
unfoldable pub ingest_result : ℕ → Provider → ResultData → List Filed → Outcome (List Filed × Bool)
ingest_result c provider d rs =
    result_over c provider d (newest_first (rows_where (is_of c d.period) rs)) rs
