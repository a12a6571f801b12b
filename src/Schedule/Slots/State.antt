-- ===== src/Schedule/Slots/State.antt =====
-- `schedule_state` of packages/shared/job_schedules.py always has a slot, so its readers never fail.
use meraipo.Prelude.{ℕ, ◌<◌, ◌≡◌, refl, Bool, some, List, [], ◌∷◌, leb, Bool-cases, inl, inr}
use meraipo.Schedule.Clock.{Local}
use meraipo.Schedule.Slots.{
  Frequency, Job, Controls, insert_sorted, sorted, times_or, control_times, default_of, is_due,
  next_slot, schedule_state,
}
use meraipo.Schedule.Slots.Next.{IsNextDue, next_slot_first}

abbrev Filled : List ℕ → Type 0
Filled xs = (t : ℕ) × (ts : List ℕ) × (xs ≡ t ∷ ts)

insert_sorted-Filled : (x : ℕ) (xs : List ℕ) → Filled (insert_sorted x xs)
unfolding insert_sorted
insert_sorted-Filled x [] = (x, [], refl)
insert_sorted-Filled x (y ∷ ys) = elim (Bool-cases (leb x y)) [
  | inl e ↦ (x, y ∷ ys, rw e)
  | inr e ↦ (y, insert_sorted x ys, rw e)
]

times_or-Filled : (xs : List ℕ) (d : ℕ) → Filled (sorted (times_or xs d))
unfolding sorted
times_or-Filled [] d = insert_sorted-Filled d []
times_or-Filled (x ∷ xs) d = insert_sorted-Filled x (sorted xs)

schedule_state-Filled : (db : Controls) (job : Job) → Filled (schedule_state db job).times
unfolding schedule_state
schedule_state-Filled db job =
    times_or-Filled (control_times (db.job_control job)) (default_of job db)

-- Whatever is stored for a job, with a proper weekday: the time at which the scheduler shows its
-- next run exists, is due, and is the first minute from now on that is due.
schedule_state-next_slot :
    (db : Controls) (job : Job) (at : Local)
    → (schedule_state db job).weekday < 7
    → at.minute < 1440
    → let s = schedule_state db job in
      (c : Local) × (next_slot s.frequency s.weekday s.times at ≡ some c)
      × IsNextDue s.frequency s.weekday s.times at c
schedule_state-next_slot db job at w h =
    let (t, ts, e) = schedule_state-Filled db job in
    rw e (
      next_slot_first (schedule_state db job).frequency (schedule_state db job).weekday t ts at w h)

first_due :
    (f : Frequency) (wd t : ℕ) (ts : List ℕ) (at : Local)
    → (b : Bool) × (is_due f wd (t ∷ ts) at ≡ some b)
unfolding is_due
first_due Frequency.hourly wd t ts at = (_, refl)
first_due Frequency.daily wd t ts at = (_, refl)
first_due Frequency.weekly wd t ts at = (_, refl)

-- The scheduler's test of a job always has an answer: it never reads a slot that is not there.
is_due_total :
    (db : Controls) (job : Job) (at : Local)
    → let s = schedule_state db job in
      (b : Bool) × (is_due s.frequency s.weekday s.times at ≡ some b)
is_due_total db job at =
    let (t, ts, e) = schedule_state-Filled db job in
    rw e (first_due (schedule_state db job).frequency (schedule_state db job).weekday t ts at)
