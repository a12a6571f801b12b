-- ===== src/Schedule/Saving.antt =====
-- `save_schedule` of apps/api/job_routes.py: an administrator's schedule of a job; and
-- `job_parameters` of packages/shared/job_schedules.py.
use mathlib.Core.Bool.{false≢true}
use mathlib.Core.Path.{subst}
use mathlib.Core.Option.{none-ne-some, some-injective}
use meraipo.Prelude.{
  ℕ, ◌≡◌, refl, ◌∙◌, ap, inl, inr, Bool, true, false, not, ◌&&◌, ◌||◌, Option, none, some, List, [],
  ◌∷◌, arith, leb, ◌==◌, ==_refl, if◌then◌else◌, length, Bool-cases,
}
use meraipo.Schedule.Slots.{
  Exchange, Kind, prices, results, Job, sync_prices_nse, sync_prices_bse, sync_results_nse,
  sync_results_bse, sync_ipos, kind_of, exchange_of, Frequency, daily, Control, ResultSource,
  Controls, ScheduleState, insert_sorted, sorted, schedule_state, has_slot, default_of, times_or,
}

-- The administrator's input; its shape is checked before.
pub record ScheduleInput : Type 0 where
  pub times : List ℕ
  pub paused : Bool
  pub frequency : Frequency
  pub weekday : ℕ

abbrev pub job_index : Job → ℕ
job_index sync_prices_nse = 0
job_index sync_prices_bse = 1
job_index sync_results_nse = 2
job_index sync_results_bse = 3
job_index sync_ipos = 4

abbrev exchange_index : Exchange → ℕ
exchange_index Exchange.nse = 0
exchange_index Exchange.bse = 1

abbrev is_prices : Kind → Bool
is_prices prices = true
is_prices _ = false

abbrev is_daily : Frequency → Bool
is_daily daily = true
is_daily _ = false

abbrev has_repeat : List ℕ → Bool
has_repeat [] = false
has_repeat (t ∷ ts) = has_slot t ts || has_repeat ts

abbrev control_of : ScheduleInput → Control
control_of data_in = record {
  paused = data_in.paused;
  schedule_times = sorted data_in.times;
  frequency = data_in.frequency;
  weekday = data_in.weekday;
}

-- A result source takes the first time; a new one is enabled.
abbrev source_with : Option ResultSource → List ℕ → Option ResultSource
source_with o [] = o
source_with none (t ∷ ts) = some (record { enabled = true; schedule = t })
source_with (some s) (t ∷ ts) = some (record s { schedule = t })

abbrev set_source : Job → List ℕ → (Exchange → Option ResultSource) → Exchange → Option ResultSource
set_source job times sources e = elim (kind_of job) [
  | results ↦ elim (exchange_of job) [
    | none ↦ sources e
    | some x ↦
        if exchange_index e == exchange_index x then source_with (sources e) times else sources e
  ]
  | _ ↦ sources e
]

abbrev pub store_schedule : Job → ScheduleInput → Controls → Controls
store_schedule job data_in db = record db {
  job_control =
      λ j. if job_index j == job_index job then some (control_of data_in) else db.job_control j;
  result_source = set_source job data_in.times db.result_source;
}

-- `none` is the refusal, 422.
unfoldable pub save_schedule : Job → ScheduleInput → Controls → Option Controls
save_schedule job data_in db =
    if not (is_prices (kind_of job) && is_daily data_in.frequency)
      && not (length data_in.times == 1)
    then none
    else if has_repeat data_in.times
    then none
    else some (store_schedule job data_in db)

-- What `job_parameters` adds: an `exchange`, or the list `exchanges`.
pub data Parameter : Type 0 where
  one_exchange : Exchange → Parameter
  exchange_list : List Exchange → Parameter

unfoldable pub job_parameters : Job → Option Parameter
job_parameters job = elim (exchange_of job) [
  | none ↦ none
  | some e ↦ some (if is_prices (kind_of job) then one_exchange e else exchange_list (e ∷ []))
]

has_slot-insert_sorted :
    (m t : ℕ) (ts : List ℕ) → has_slot m (insert_sorted t ts) ≡ (t == m || has_slot m ts)
unfolding insert_sorted
has_slot-insert_sorted m t [] = refl
has_slot-insert_sorted m t (u ∷ us) = ground (arith, has_slot-insert_sorted m t us)

has_slot-sorted : (m : ℕ) (ts : List ℕ) → has_slot m (sorted ts) ≡ has_slot m ts
unfolding sorted
has_slot-sorted m [] = refl
has_slot-sorted m (t ∷ ts) =
    has_slot-insert_sorted m t (sorted ts) ∙ ap (λ b. t == m || b) (has_slot-sorted m ts)

-- What the scheduler reads of a schedule that was saved.
pub record IsSaved (data_in : ScheduleInput) (state : ScheduleState) : Type 0 where
  pub times : (m : ℕ) → has_slot m state.times ≡ has_slot m data_in.times
  pub paused : state.paused ≡ data_in.paused
  pub frequency : state.frequency ≡ data_in.frequency
  pub weekday : state.weekday ≡ data_in.weekday

times_or-found : (k d : ℕ) (ts : List ℕ) → has_slot k ts ≡ true → times_or ts d ≡ ts
times_or-found k d [] h = absurd (false≢true h)
times_or-found k d (t ∷ ts) h = refl

times_or-sorted :
    (d : ℕ) (ts : List ℕ) → leb 1 (length ts) ≡ true → times_or (sorted ts) d ≡ sorted ts
times_or-sorted d [] h = absurd (false≢true h)
times_or-sorted d (t ∷ ts) h =
    times_or-found t d (sorted (t ∷ ts)) (has_slot-sorted t (t ∷ ts) ∙ rw (==_refl t) refl)

state_of_control :
    (data_in : ScheduleInput) (db : Controls) (job : Job)
    → leb 1 (length data_in.times) ≡ true
    → db.job_control job ≡ some (control_of data_in)
    → IsSaved data_in (schedule_state db job)
unfolding schedule_state
state_of_control data_in db job n e = record {
  times = λ m.
      rw (e, times_or-sorted (default_of job db) data_in.times n)
        (has_slot-sorted m (sorted data_in.times) ∙ has_slot-sorted m data_in.times);
  paused = rw e refl;
  frequency = rw e refl;
  weekday = rw e refl;
}

stored_control :
    (job : Job) (data_in : ScheduleInput) (db : Controls)
    → (store_schedule job data_in db).job_control job ≡ some (control_of data_in)
stored_control job data_in db = rw (==_refl (job_index job)) refl

saved_as :
    (job : Job) (data_in : ScheduleInput) (db after : Controls)
    → save_schedule job data_in db ≡ some after
    → store_schedule job data_in db ≡ after
unfolding save_schedule
saved_as job data_in db after h =
    let refused =
      not (is_prices (kind_of job) && is_daily data_in.frequency)
      && not (length data_in.times == 1) in
    elim (Bool-cases refused) [
      | inl y ↦ absurd (none-ne-some after (rw (save_schedule, y) at h))
      | inr n ↦ elim (Bool-cases (has_repeat data_in.times)) [
        | inl y ↦ absurd (none-ne-some after (rw (save_schedule, n, y) at h))
        | inr k ↦ some-injective _ after (rw (save_schedule, n, k) at h)
      ]
    ]

-- What an administrator saved, with at least one slot, is what the scheduler reads of the job
-- afterwards: the same slots, the same pause, frequency and weekday.
pub save_schedule_read :
    (job : Job) (data_in : ScheduleInput) (db after : Controls)
    → leb 1 (length data_in.times) ≡ true
    → save_schedule job data_in db ≡ some after
    → IsSaved data_in (schedule_state after job)
save_schedule_read job data_in db after n h =
    subst (λ x. IsSaved data_in (schedule_state x job)) (saved_as job data_in db after h)
      (state_of_control data_in (store_schedule job data_in db) job n
        (stored_control job data_in db))
