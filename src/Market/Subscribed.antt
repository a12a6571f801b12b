-- ===== src/Market/Subscribed.antt =====
-- `ingest_record` of apps/worker/market.py: the branch of subscriptions, with the daily summary after it.
-- A day's row is known by its company, date and exchange, which are unique. `fingerprint` stands for the
-- function of that name on the categories; `india_day` gives the Indian date of a time.
pub mod Daily
use meraipo.Prelude.{
  ℕ, ◌+◌, ◌/◌, Bool, true, false, not, ◌&&◌, ◌||◌, Option, none, some, List, [], ◌∷◌, ◌++◌, ltb,
  ◌==◌, if◌then◌else◌, any_of, map, first_where, update_first, delete_where,
}
use meraipo.Market.Match.{Provider}
use meraipo.Market.Feed.{same_provider}

-- A category's multiple, bid shares and offered shares, each given or not.
pub record Category : Type 0 where
  pub name : ℕ
  pub multiple : Option ℕ
  pub bid_shares : Option ℕ
  pub offered_shares : Option ℕ

pub record Subscription : Type 0 where
  pub id : ℕ
  pub ipo : ℕ
  pub multiple : Option ℕ
  pub observed_at : ℕ
  pub categories : List Category
  pub payload_hash : ℕ
  pub source_exchange : ℕ
  pub source_provider : Provider

pub record DayKey : Type 0 where
  pub company : ℕ
  pub date : ℕ
  pub exchange : ℕ

pub record SubscriptionDay : Type 0 where
  pub key : DayKey
  pub subscription : ℕ

pub record Detail : Type 0 where
  pub day : DayKey
  pub category : Category

pub record Books : Type 0 where
  pub subscriptions : List Subscription
  pub days : List SubscriptionDay
  pub details : List Detail

-- The record of the feed.
pub record SubscriptionData : Type 0 where
  pub categories : List Category
  pub source_timestamp : ℕ

-- `astimezone(ZoneInfo("Asia/Kolkata")).date()` of a time in seconds.
abbrev pub india_day : ℕ → ℕ
india_day t = (t + 19800) / 86400

abbrev pub is_from : ℕ → Provider → Subscription → Bool
is_from ipo provider s = s.ipo == ipo && same_provider s.source_provider provider

-- Of two rows the one that was observed last; of two of one time the one that was stored last.
abbrev pub later : Subscription → Option Subscription → Option Subscription
later s none = some s
later s (some r) = if ltb r.observed_at s.observed_at then some s else some r

-- `ORDER BY observed_at DESC, created_at DESC LIMIT 1`; the test before the row is stored leaves the order
-- of rows of one time open, and is taken to use the same.
abbrev pub latest_where : (Subscription → Bool) → List Subscription → Option Subscription
latest_where p [] = none
latest_where p (s ∷ ss) = let rest = latest_where p ss in if p s then later s rest else rest

-- Whether the latest row makes the record one that is not stored.
abbrev pub is_superseded : ℕ → ℕ → Option Subscription → Bool
is_superseded hash at none = false
is_superseded hash at (some s) =
    (s.payload_hash == hash && india_day s.observed_at == india_day at) || ltb at s.observed_at

abbrev is_total : ℕ → Category → Bool
is_total total c = c.name == total

abbrev pub multiple_of : Option Category → Option ℕ
multiple_of none = none
multiple_of (some c) = c.multiple

abbrev pub same_day : DayKey → DayKey → Bool
same_day j k = (j.company == k.company && j.date == k.date) && j.exchange == k.exchange

abbrev pub is_day : DayKey → SubscriptionDay → Bool
is_day k d = same_day d.key k

abbrev pub is_detail : DayKey → Detail → Bool
is_detail k d = same_day d.day k

abbrev pub details_of : DayKey → List Category → List Detail
details_of k cs = map (λ c. record { day = k; category = c }) cs

-- The day's row with its details, which replace those of the row, if there is one.
abbrev pub store_day : DayKey → List Category → Books → Subscription → Books
store_day k cs b s =
    if any_of (is_day k) b.days
    then record b {
      days = update_first (is_day k) (λ d. record d { subscription = s.id }) b.days;
      details = delete_where (is_detail k) b.details ++ details_of k cs;
    }
    else record b {
      days = b.days ++ record { key = k; subscription = s.id } ∷ [];
      details = b.details ++ details_of k cs;
    }

abbrev pub summarise_day : DayKey → List Category → Books → Option Subscription → Books
summarise_day k cs b none = b
summarise_day k cs b (some s) = store_day k cs b s

module _ (fingerprint : List Category → ℕ) (total : ℕ) where
  abbrev pub subscription_of : ℕ → ℕ → Provider → ℕ → SubscriptionData → Subscription
  subscription_of id ipo provider authority d = record {
    id = id;
    ipo = ipo;
    multiple = multiple_of (first_where (is_total total) d.categories);
    observed_at = d.source_timestamp;
    categories = d.categories;
    payload_hash = fingerprint d.categories;
    source_exchange = authority;
    source_provider = provider;
  }

  abbrev pub add_subscription : ℕ → ℕ → ℕ → Provider → ℕ → SubscriptionData → Books → Books
  add_subscription id company ipo provider authority d b =
      let rows = b.subscriptions ++ subscription_of id ipo provider authority d ∷ [] in
      summarise_day
        (record { company = company; date = india_day d.source_timestamp; exchange = authority })
        d.categories (record b { subscriptions = rows }) (latest_where (is_from ipo provider) rows)

  -- The branch, for the new row's number, and whether it wrote.
  unfoldable pub ingest_subscription :
      ℕ → ℕ → ℕ → Provider → ℕ → SubscriptionData → Books → Books × Bool
  ingest_subscription id company ipo provider authority d b =
      if is_superseded (fingerprint d.categories) d.source_timestamp
        (latest_where (is_from ipo provider) b.subscriptions)
      then (b, false)
      else (add_subscription id company ipo provider authority d b, true)
