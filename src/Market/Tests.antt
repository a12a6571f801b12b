-- ===== src/Market/Tests.antt =====
-- A company with two identifiers, and the records of a feed about it.
use meraipo.Prelude.{
  ℕ, List, Option, first_where, ◌==◌, ◌≡◌, ◌≤◌, refl, true, false, none, some, [], ◌∷◌, all_of,
  arith,
}
use meraipo.Market.Match.{
  Company, Tables, Data, other, nse, sme, mainboard, returned, match_company, contradicts,
  find_isin, find_symbol, remember_identifiers, write_identifiers, Remembered, tables_after,
}
use meraipo.Market.Match.Exact.{agrees, match_company_exact}
use meraipo.Market.Match.Unique.{all_known}
use meraipo.Market.Match.Recall.{remember_identifiers_again}
use meraipo.Market.Feed.{Price, PriceData, Filed, ResultData, ingest_price, ingest_result}
use meraipo.Market.Feed.Prices.{time_at, prices_after, ingest_price_forward}
use meraipo.Market.Feed.Distinct.{IsDistinct, rows_after, ingest_result-IsDistinct}
use meraipo.Market.Subscribed.{Category, SubscriptionData, Books, multiple_of, ingest_subscription}
use meraipo.Market.Subscribed.Daily.{IsDaily, ingest_subscription-IsDaily}

abbrev acme : Company
acme = record { id = 3; name = 900; isin = some 555; board = sme }

abbrev tables : Tables
tables = record {
  companies = acme ∷ [];
  identifiers = record { company = 3; exchange = 1; ticker = 40 } ∷ [];
  ipos = record { id = 8; company = 3; source_provider = some nse } ∷ [];
  dates = record { ipo = 8; open_date = some 10; close_date = some 14 } ∷ [];
}

abbrev data_of : Data
data_of = record {
  isin = some 555;
  nse_symbol = some 40;
  namespace = some (other 6);
  identifiers = (1, some 40) ∷ (2, none) ∷ (6, some 70) ∷ [];
  issue =
      some (record { name = 900; board = mainboard; open_date = some 10; close_date = some 14 });
}

match_run : match_company 9 (λ n. n) (λ n. n) tables data_of ≡ returned (some acme)
unfolding match_company
match_run = refl

match_company_exact_example :
    (agrees (find_isin tables (some 555)) 3 ≡ true)
    × (all_of (λ s. agrees (find_symbol tables s) 3) data_of.identifiers ≡ true)
    × (contradicts 9 (λ n. n) (λ n. n) (some 555) (some 555) ≡ false)
match_company_exact_example = match_company_exact 9 (λ n. n) (λ n. n) tables data_of acme match_run

-- What is left of the record: the symbol 70 of the exchange 6 is new.
abbrev learnt : Remembered
unfolding write_identifiers
learnt = write_identifiers tables.identifiers acme data_of

remember_identifiers_again_example :
    (remember_identifiers tables acme data_of ≡ some learnt)
    × (all_known 3 data_of.identifiers learnt.identifiers ≡ true)
    × (remember_identifiers (tables_after tables learnt) learnt.company data_of
        ≡ some (record learnt { changed = false }))
unfolding write_identifiers
remember_identifiers_again_example =
    remember_identifiers_again 9 (λ n. n) (λ n. n) tables data_of acme match_run

-- A company that the symbol of another is given.
symbol_of_another : remember_identifiers tables (record acme { id = 4; isin = none }) data_of ≡ none
unfolding remember_identifiers
symbol_of_another = refl

abbrev old_price : Price
old_price = record {
  company = 3;
  date = 100;
  close = 50;
  rest = 0;
  source_timestamp = some 1000;
  source_provider = some nse;
}

abbrev newer : PriceData
newer = record { date = 100; close = 51; rest = 1; source_timestamp = 1001 }

ingest_price_forward_example :
    time_at 3 100 (old_price ∷ [])
    ≤ time_at 3 100 (prices_after (old_price ∷ []) (ingest_price 3 true nse newer (old_price ∷ [])))
ingest_price_forward_example = ingest_price_forward 3 3 100 true nse newer (old_price ∷ [])

abbrev old_result : Filed
old_result = record {
  company = 3;
  period = 20;
  revision = 1;
  statement = 0;
  payload_hash = some 77;
  source_timestamp = some 1000;
  source_provider = some nse;
}

abbrev restated : ResultData
restated = record { period = 20; statement = 0; digest = 78; source_timestamp = 1001 }

old-IsDistinct : IsDistinct (old_result ∷ [])
old-IsDistinct = (λ c t k. ground arith, λ c t h. ground arith)

ingest_result-IsDistinct_example :
    IsDistinct (rows_after (old_result ∷ []) (ingest_result 3 nse restated (old_result ∷ [])))
ingest_result-IsDistinct_example =
    ingest_result-IsDistinct 3 nse restated (old_result ∷ []) old-IsDistinct

abbrev retail : ℕ → Category
retail n = record { name = 4; multiple = some n; bid_shares = none; offered_shares = none }

abbrev morning : SubscriptionData
morning = record { categories = retail 2 ∷ []; source_timestamp = 1000 }

abbrev evening : SubscriptionData
evening = record { categories = retail 3 ∷ []; source_timestamp = 20000 }

abbrev any_multiple : Option ℕ → ℕ
any_multiple none = 0
any_multiple (some n) = n

abbrev count_of : List Category → ℕ
count_of cs = any_multiple (multiple_of (first_where (λ c. c.name == 4) cs))

abbrev books : Books
books =
    (ingest_subscription count_of 4 1 3 8 nse 2 morning
      (record { subscriptions = []; days = []; details = [] })).0

ingest_subscription-IsDaily_example :
    IsDaily
      (record { company = 3; date = 0; exchange = 2 })
      (retail 3 ∷ [])
      2
      (ingest_subscription count_of 4 2 3 8 nse 2 evening books).0
unfolding ingest_subscription
ingest_subscription-IsDaily_example =
    ingest_subscription-IsDaily count_of 4 2 3 8 nse 2 evening books refl refl
