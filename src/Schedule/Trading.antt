-- ===== src/Schedule/Trading.antt =====
-- Trading days and freshness: packages/shared/market_freshness.py, `trading_session` of
-- packages/providers/bhavcopy.py and `latest_trading_day` of apps/worker/exchange_pipeline.py.
pub mod Days
use meraipo.Prelude.{
  ℕ, zero, suc, ◌+◌, ◌-◌, ◌*◌, Bool, true, false, not, ◌&&◌, ◌||◌, Option, none, some, List, [],
  ◌∷◌, ltb, leb, ◌==◌, if◌then◌else◌, any_of,
}
use meraipo.Schedule.Clock.{Local, weekday, year_of, earlier, at_slot}
use meraipo.Schedule.Slots.{scan_days}

abbrev pub listed_in : ℕ → List ℕ → Bool
listed_in d = any_of (λ h. h == d)

-- `day.weekday() >= 5 or day in holidays`
abbrev pub is_shut : List ℕ → ℕ → Bool
is_shut holidays day = leb 5 (weekday day) || listed_in day holidays

-- The `while` loop of `freshness`, with fuel; `none` means that the fuel ran out.
unfoldable pub expected_day : ℕ → List ℕ → ℕ → Option ℕ
expected_day zero holidays day = none
expected_day (suc fuel) holidays day =
    let rest = expected_day fuel holidays (day - 1) in
    if is_shut holidays day then rest else some day

pub data FeedKind : Type 0 where
  prices subscriptions gmp results ipos : FeedKind

pub data Freshness : Type 0 where
  not_expected failing stale fresh aging : Freshness

-- The limits of the ages, in hours.
abbrev pub age_limit : FeedKind → ℕ
age_limit subscriptions = 4
age_limit gmp = 4
age_limit results = 8 * 24
age_limit _ = 26

-- `expected` before the loop: today, or yesterday until 18:15.
abbrev pub expected_from : Local → ℕ
expected_from at = if ltb at.minute (18 * 60 + 15) then at.day - 1 else at.day

-- Microseconds from day 0, for the age of an observation.
abbrev pub instant : Local → ℕ
instant t = (t.day * 1440 + t.minute) * 60_000_000 + t.micros

-- `age <= limit` and `age <= limit * 2`, where `age` is in hours; an observation after `at` has a
-- negative age, and `-` on the numbers stops at 0, which passes the same tests.
abbrev pub aged : FeedKind → Local → Local → Freshness
aged kind seen at =
    let age = instant at - instant seen in
    if leb age (age_limit kind * 3_600_000_000)
    then fresh
    else if leb age (age_limit kind * 2 * 3_600_000_000)
    then aging
    else stale

by_prices : Option ℕ → Local → Freshness
by_prices none seen = stale
by_prices (some day) seen = if leb day seen.day then fresh else stale

abbrev is_prices : FeedKind → Bool
is_prices prices = true
is_prices _ = false

-- `fuel` bounds the `while` loop.
unfoldable pub freshness : ℕ → FeedKind → Option Local → Local → Bool → Bool → List ℕ → Freshness
unfolding by_prices
freshness fuel kind seen at active failed holidays =
    if not active then not_expected else if failed then failing else elim seen [
      | none ↦ stale
      | some s ↦
          if is_prices kind
          then by_prices (expected_day fuel holidays (expected_from at)) s
          else aged kind s at
    ]

-- `SLOTS` of market_freshness.py, by the names of its jobs.
pub data MarketJob : Type 0 where
  sync_ipos sync_prices sync_results collect_ipos publish_ipos collect_prices publish_prices
        collect_results publish_results ipo_master ipo_live eod_prices results_daily reconcile
        other :
      MarketJob

abbrev pub slots_of : MarketJob → List ℕ
slots_of sync_ipos = (23 * 60) ∷ []
slots_of sync_prices = (19 * 60) ∷ (20 * 60) ∷ (22 * 60) ∷ []
slots_of sync_results = (19 * 60 + 30) ∷ []
slots_of collect_ipos = (7 * 60) ∷ []
slots_of publish_ipos = (7 * 60 + 15) ∷ []
slots_of collect_prices = (18 * 60 + 45) ∷ []
slots_of publish_prices = (19 * 60) ∷ []
slots_of collect_results = (21 * 60) ∷ []
slots_of publish_results = (21 * 60 + 30) ∷ []
slots_of ipo_master = (7 * 60) ∷ []
slots_of ipo_live =
    (10 * 60 + 30) ∷ (12 * 60 + 30) ∷ (14 * 60 + 30) ∷ (16 * 60) ∷ (17 * 60 + 30) ∷ []
slots_of eod_prices = (18 * 60 + 15) ∷ []
slots_of results_daily = (19 * 60) ∷ []
slots_of reconcile = (22 * 60 + 30) ∷ []
slots_of other = []

-- The two `continue` tests: weekly results run on Fridays, price jobs on trading days.
abbrev pub runs_on : MarketJob → List ℕ → ℕ → Bool
runs_on collect_results holidays day = weekday day == 4
runs_on publish_results holidays day = weekday day == 4
runs_on eod_prices holidays day = not (is_shut holidays day)
runs_on collect_prices holidays day = not (is_shut holidays day)
runs_on publish_prices holidays day = not (is_shut holidays day)
runs_on _ holidays day = true

unfoldable pub next_scheduled : MarketJob → Local → List ℕ → Option Local
unfolding scan_days
next_scheduled job at holidays = scan_days (runs_on job holidays) (slots_of job) 15 at.day at

pub data DayError : Type 0 where
  future_trade_date trading_calendar_required trading_date_not_found : DayError

pub data DayResult : Type 0 where
  ok : ℕ → DayResult
  err : DayError → DayResult

-- The loop of `latest_trading_day` over at most `n` days.
unfoldable pub back_to_trading : ℕ → ℕ → List ℕ → ℕ → DayResult
back_to_trading zero year holidays day = err trading_date_not_found
back_to_trading (suc n) year holidays day =
    let rest = back_to_trading n year holidays (day - 1) in
    if not (year_of day == year)
    then err trading_calendar_required
    else if is_shut holidays day
    then rest
    else ok day

unfoldable pub latest_trading_day : ℕ → List ℕ → ℕ → ℕ → DayResult
unfolding back_to_trading
latest_trading_day year holidays today day =
    if ltb today day then err future_trade_date else back_to_trading 15 year holidays day

-- The calendar of a bhavcopy source, and whether a day is a session of it; `none` is the error
-- TRADING_CALENDAR_REQUIRED.
pub record Calendar : Type 0 where
  pub calendar_year : ℕ
  pub calendar_source : Bool
  pub holidays : List ℕ
  pub special_sessions : List ℕ

unfoldable pub trading_session : ℕ → Calendar → Option Bool
trading_session day c =
    if not (c.calendar_year == year_of day) || not c.calendar_source
    then none
    else some (listed_in day c.special_sessions || not (is_shut c.holidays day))
