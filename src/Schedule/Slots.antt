-- ===== src/Schedule/Slots.antt =====
-- packages/shared/job_schedules.py: the five scheduled jobs, their stored state, and the slots at
-- which they are due. A slot "HH:MM" is its minute of the day.
pub mod First
pub mod Next
pub mod State
use meraipo.Prelude.{
  ℕ, zero, suc, ◌+◌, ◌-◌, ◌*◌, ◌/◌, ◌%◌, Bool, true, false, not, ◌&&◌, Option, none, some, List, [],
  ◌∷◌, leb, ◌==◌, if◌then◌else◌, any_of,
}
use meraipo.Schedule.Clock.{Local, weekday, earlier, at_slot, plus_hour}

pub data Exchange : Type 0 where
  nse bse : Exchange

pub data Kind : Type 0 where
  prices results ipos : Kind

-- The keys of `SCHEDULED_JOBS`; all but `sync_ipos` are those of `EXCHANGE_JOBS`.
pub data Job : Type 0 where
  sync_prices_nse sync_prices_bse sync_results_nse sync_results_bse sync_ipos : Job

abbrev pub kind_of : Job → Kind
kind_of sync_prices_nse = prices
kind_of sync_prices_bse = prices
kind_of sync_results_nse = results
kind_of sync_results_bse = results
kind_of sync_ipos = ipos

abbrev pub exchange_of : Job → Option Exchange
exchange_of sync_prices_nse = some nse
exchange_of sync_prices_bse = some bse
exchange_of sync_results_nse = some nse
exchange_of sync_results_bse = some bse
exchange_of sync_ipos = none

abbrev pub default_time : Job → ℕ
default_time sync_prices_nse = 19 * 60
default_time sync_prices_bse = 20 * 60
default_time sync_results_nse = 21 * 60
default_time sync_results_bse = 22 * 60
default_time sync_ipos = 23 * 60

pub data Frequency : Type 0 where
  hourly daily weekly : Frequency

pub record Control : Type 0 where
  pub paused : Bool
  pub schedule_times : List ℕ
  pub frequency : Frequency
  pub weekday : ℕ

pub record ResultSource : Type 0 where
  pub enabled : Bool
  pub schedule : ℕ

-- The rows and settings that `schedule_state` reads: the controls of the jobs and of the kinds
-- ("sync-prices", "sync-results"; "sync-ipos" is a job and its own kind), the result sources, and
-- whether the bhavcopy source of an exchange is enabled.
pub record Controls : Type 0 where
  pub job_control : Job → Option Control
  pub kind_control : Kind → Option Control
  pub result_source : Exchange → Option ResultSource
  pub price_source_enabled : Exchange → Bool

pub record ScheduleState : Type 0 where
  pub times : List ℕ
  pub paused : Bool
  pub source_enabled : Bool
  pub frequency : Frequency
  pub weekday : ℕ

-- `sorted`, on slots.
unfoldable pub insert_sorted : ℕ → List ℕ → List ℕ
insert_sorted x [] = x ∷ []
insert_sorted x (y ∷ ys) = let rest = insert_sorted x ys in if leb x y then x ∷ y ∷ ys else y ∷ rest

unfoldable pub sorted : List ℕ → List ℕ
unfolding insert_sorted
sorted [] = []
sorted (x ∷ xs) = insert_sorted x (sorted xs)

abbrev pub control_times : Option Control → List ℕ
control_times none = []
control_times (some c) = c.schedule_times

-- `control.schedule_times if control and control.schedule_times else [default]`
abbrev pub times_or : List ℕ → ℕ → List ℕ
times_or [] d = d ∷ []
times_or (t ∷ ts) d = t ∷ ts

-- The time of a result source stands in for the default only where the control has no times.
abbrev pub result_default : Option Exchange → (Exchange → Option ResultSource) → ℕ → ℕ
result_default none sources d = d
result_default (some e) sources d = elim (sources e) [ none ↦ d | some s ↦ s.schedule ]

abbrev source_on : Job → Controls → Bool
source_on job db = elim (exchange_of job) [
  | none ↦ true
  | some e ↦ elim (kind_of job) [
    | prices ↦ db.price_source_enabled e
    | results ↦ elim (db.result_source e) [ none ↦ true | some s ↦ s.enabled ]
    | ipos ↦ true
  ]
]

abbrev pub default_of : Job → Controls → ℕ
default_of job db = elim (kind_of job) [
  | results ↦ result_default (exchange_of job) db.result_source (default_time job)
  | _ ↦ default_time job
]

abbrev is_paused : Option Control → Option Control → Bool
is_paused (some c) parent = c.paused
is_paused none none = false
is_paused none (some p) = p.paused

unfoldable pub schedule_state : Controls → Job → ScheduleState
unfolding sorted
schedule_state db job =
    let control = db.job_control job in
    record {
      times = sorted (times_or (control_times control) (default_of job db));
      paused = is_paused control (db.kind_control (kind_of job));
      source_enabled = source_on job db;
      frequency = elim control [ none ↦ daily | some c ↦ c.frequency ];
      weekday = elim control [ none ↦ 0 | some c ↦ c.weekday ];
    }

-- What reading `times[0]` needs; `none` is the IndexError of an empty list.
abbrev pub first_minute : List ℕ → Option ℕ
first_minute [] = none
first_minute (t ∷ ts) = some (t % 60)

-- Whether the weekly test lets a day through.
abbrev pub day_fits : Frequency → ℕ → ℕ → Bool
day_fits weekly wd day = weekday day == wd
day_fits _ wd day = true

abbrev pub has_slot : ℕ → List ℕ → Bool
has_slot m = any_of (λ t. t == m)

unfoldable pub is_due : Frequency → ℕ → List ℕ → Local → Option Bool
is_due hourly wd times at = elim (first_minute times) [
  | none ↦ none
  | some m ↦ some (at.minute % 60 == m)
]
is_due daily wd times at = some (has_slot at.minute times)
is_due weekly wd times at =
    some (if day_fits weekly wd at.day then has_slot at.minute times else false)

-- The inner loop: the first of the slots of a day that lies after `at`.
pub first_slot : List ℕ → ℕ → Local → Option Local
first_slot [] day at = none
first_slot (t ∷ ts) day at =
    let rest = first_slot ts day at in
    if earlier at (at_slot day t) then some (at_slot day t) else rest

-- The outer loop, over the `n` days from `day` on that `open_day` lets through.
unfoldable pub scan_days : (ℕ → Bool) → List ℕ → ℕ → ℕ → Local → Option Local
unfolding first_slot
scan_days open_day slots zero day at = none
scan_days open_day slots (suc n) day at =
    let rest = scan_days open_day slots n (day + 1) at in
    if open_day day then elim (first_slot slots day at) [ none ↦ rest | some c ↦ some c ] else rest

-- `local.replace(minute=…)`, or that one hour later.
hourly_slot : ℕ → Local → Local
hourly_slot m at =
    let candidate = at_slot at.day (at.minute / 60 * 60 + m) in
    if earlier at candidate then candidate else plus_hour candidate

-- `none` is the IndexError for no times at all, or the end of the loop without a slot.
unfoldable pub next_slot : Frequency → ℕ → List ℕ → Local → Option Local
unfolding scan_days hourly_slot sorted
next_slot hourly wd times at = elim (first_minute times) [
  | none ↦ none
  | some m ↦ some (hourly_slot m at)
]
next_slot f wd times at = scan_days (day_fits f wd) (sorted times) 8 at.day at
