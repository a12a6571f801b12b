-- ===== src/Schedule/Trading/Days.antt =====
-- The searches for a trading day of packages/shared/market_freshness.py and
-- apps/worker/exchange_pipeline.py end, at the latest trading day.
use mathlib.Core.Path.{subst}
use meraipo.Prelude.{
  ℕ, zero, suc, ◌+◌, ◌-◌, ◌*◌, ◌≤◌, ◌<◌, ◌≡◌, ltb, true, false, some, List, [], ◌∷◌, arith, leb,
  ◌==◌, length, count_where, count_where-le, Bool-cases, ==_iff, leb→le, inl, inr,
}
use meraipo.Schedule.Clock.{Local, weekday, year_of}
use meraipo.Schedule.Slots.First.{IsSorted}
use meraipo.Schedule.Slots.Next.{IsNext, scan_days-IsNext}
use meraipo.Schedule.Trading.{
  listed_in, is_shut, expected_day, ok, err, back_to_trading, latest_trading_day, MarketJob,
  slots_of, runs_on, next_scheduled, future_trade_date, other, trading_calendar_required,
}

-- `d` is the last trading day up to `day`.
pub record IsLatest (holidays : List ℕ) (day d : ℕ) : Type 0 where
  pub not_after : d ≤ day
  pub trading : is_shut holidays d ≡ false
  pub last : (e : ℕ) → d < e → e ≤ day → is_shut holidays e ≡ true

IsLatest-here :
    (holidays : List ℕ) (day : ℕ) → is_shut holidays day ≡ false → IsLatest holidays day day
IsLatest-here holidays day h = record {
  not_after = omega arith;
  trading = h;
  last = λ e l u. absurd (omega arith);
}

IsLatest-back :
    (holidays : List ℕ) (day d : ℕ)
    → 1 ≤ day
    → is_shut holidays day ≡ true
    → IsLatest holidays (day - 1) d
    → IsLatest holidays day d
IsLatest-back holidays day d p h x = record {
  not_after = omega (arith, x.not_after);
  trading = x.trading;
  last = λ e l u. elim (Bool-cases (e == day)) [
    | inl same ↦ rw ((==_iff e day).0 same) h
    | inr apart ↦ x.last e l (ground arith)
  ];
}

abbrev until : ℕ → List ℕ → ℕ
until d = count_where (λ h. leb h d)

until_mono : (d : ℕ) (holidays : List ℕ) → until (d - 1) holidays ≤ until d holidays
until_mono d [] = omega arith
until_mono d (h ∷ hs) = ground (arith, until_mono d hs)

until_step :
    (d : ℕ) (holidays : List ℕ)
    → 1 ≤ d
    → listed_in d holidays ≡ true
    → until (d - 1) holidays + 1 ≤ until d holidays
until_step d [] p h = absurd (cc)
until_step d (h ∷ hs) p l = elim (Bool-cases (h == d)) [
  | inl e ↦ ground (arith, until_mono d hs)
  | inr e ↦ ground (arith, until_step d hs p (rw e at l))
]

-- A bound on the shut days that end on `d`: three for each holiday, and the weekend.
abbrev pub shut_bound : List ℕ → ℕ → ℕ
shut_bound holidays d = 3 * until d holidays + (weekday d - 4)

shut_bound_step :
    (holidays : List ℕ) (d : ℕ)
    → 1 ≤ d
    → is_shut holidays d ≡ true
    → shut_bound holidays (d - 1) + 1 ≤ shut_bound holidays d
shut_bound_step holidays d p h = elim (Bool-cases (listed_in d holidays)) [
  | inl e ↦ omega (arith, until_step d holidays p e)
  | inr e ↦
      let w : 5 ≤ weekday d = leb→le 5 (weekday d) (ground arith) in
      omega (arith, until_mono d holidays)
]

until_pos : (d : ℕ) (holidays : List ℕ) → listed_in d holidays ≡ true → 1 ≤ until d holidays
until_pos d [] l = absurd (cc)
until_pos d (h ∷ hs) l = elim (Bool-cases (h == d)) [
  | inl e ↦ ground arith
  | inr e ↦ ground (arith, until_pos d hs (rw e at l))
]

shut_bound_pos : (holidays : List ℕ) (d : ℕ) → is_shut holidays d ≡ true → 1 ≤ shut_bound holidays d
shut_bound_pos holidays d h = elim (Bool-cases (listed_in d holidays)) [
  | inl e ↦ omega (arith, until_pos d holidays e)
  | inr e ↦ let w : 5 ≤ weekday d = leb→le 5 (weekday d) (ground arith) in omega arith
]

expected_day_found :
    (fuel : ℕ) (holidays : List ℕ) (day : ℕ)
    → shut_bound holidays day < fuel
    → shut_bound holidays day ≤ day
    → (d : ℕ) × (expected_day fuel holidays day ≡ some d) × IsLatest holidays day d
unfolding expected_day
expected_day_found zero holidays day f b = absurd (omega arith)
expected_day_found (suc fuel) holidays day f b = elim (Bool-cases (is_shut holidays day)) [
  | inr e ↦ (day, rw e, IsLatest-here holidays day e)
  | inl e ↦
      let pos = shut_bound_pos holidays day e in
      let step = shut_bound_step holidays day (omega arith) e in
      let (d, q, x) = expected_day_found fuel holidays (day - 1) (omega arith) (omega arith) in
      (d, rw e q, IsLatest-back holidays day d (omega arith) e x)
]

-- The search for the expected trading day ends: three rounds for each configured holiday and three
-- more are enough fuel, and it finds the last day up to `day` that is neither a weekend nor a
-- holiday.
pub expected_day-IsLatest :
    (holidays : List ℕ) (day : ℕ)
    → 3 * length holidays + 2 ≤ day
    → (d : ℕ) × (expected_day (3 * length holidays + 3) holidays day ≡ some d)
      × IsLatest holidays day d
expected_day-IsLatest holidays day h =
    let n = count_where-le (λ x. leb x day) holidays in
    expected_day_found (3 * length holidays + 3) holidays day (omega arith) (omega arith)

back_to_trading_found :
    (n year : ℕ) (holidays : List ℕ) (day : ℕ) {d : ℕ}
    → n ≤ day
    → back_to_trading n year holidays day ≡ ok d
    → IsLatest holidays day d × (year_of d ≡ year) × (day < d + n)
unfolding back_to_trading
back_to_trading_found zero year holidays day b h = absurd (cc)
back_to_trading_found (suc n) year holidays day {d} b h = elim (Bool-cases (year_of day == year)) [
  | inr e ↦ let q : err trading_calendar_required ≡ ok _ = rw e at h in absurd (cc)
  | inl e ↦ elim (Bool-cases (is_shut holidays day)) [
    | inr trade ↦
        let q : ok day ≡ ok _ = rw (e, trade) at h in
        let same : day ≡ d = cc in
        (
          subst (λ x. IsLatest holidays day x) same (IsLatest-here holidays day trade),
          rw (← same) ((==_iff (year_of day) year).0 e),
          omega arith,
        )
    | inl shut ↦
        let r = back_to_trading_found n year holidays (day - 1) (omega arith) (rw (e, shut) at h) in
        (IsLatest-back holidays day _ (omega arith) shut r.0, r.1, omega (arith, r.2))
  ]
]

-- A trade date that the collector resolves is the last trading day up to the requested one, which
-- is not in the future; it is in the configured calendar year and less than fifteen days back.
latest_trading_day_sound :
    (year : ℕ) (holidays : List ℕ) (today day : ℕ) {d : ℕ}
    → 15 ≤ day
    → latest_trading_day year holidays today day ≡ ok d
    → (day ≤ today) × IsLatest holidays day d × (year_of d ≡ year) × (day < d + 15)
unfolding latest_trading_day
latest_trading_day_sound year holidays today day b h = elim (Bool-cases (ltb today day)) [
  | inl e ↦ let q : err future_trade_date ≡ ok _ = rw e at h in absurd (cc)
  | inr e ↦
      let r = back_to_trading_found 15 year holidays day b (rw e at h) in
      (ground arith, r.0, r.1, r.2)
]

slots_of-IsSorted : (job : MarketJob) → IsSorted (slots_of job)
slots_of-IsSorted other = tt
slots_of-IsSorted _ = omega arith

-- The next slot shown for a market job is after `at`, on a day on which the job runs, one of the
-- job's slots, and no earlier slot of such a day is after `at`.
pub next_scheduled-IsNext :
    (job : MarketJob) (at : Local) (holidays : List ℕ) (c : Local)
    → next_scheduled job at holidays ≡ some c
    → IsNext (runs_on job holidays) (slots_of job) at.day at c
unfolding next_scheduled
next_scheduled-IsNext job at holidays c h =
    scan_days-IsNext (runs_on job holidays) (slots_of job) (slots_of-IsSorted job) at 15 at.day c h
