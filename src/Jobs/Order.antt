-- ===== src/Jobs/Order.antt =====
-- What the operations on the job board keep of a run: its stage only goes up.
use meraipo.Prelude.{
  ◌==◌, any_of, ℕ, ◌≡◌, ◌≤◌, refl, inl, inr, Bool, true, false, ◌&&◌, Option, none, some, List, [],
  ◌∷◌, ◌++◌, arith, update_where, first_where, Bool-cases,
}
use meraipo.Schedule.Clock.{Local}
use meraipo.Schedule.Slots.{Job, Controls}
use meraipo.Jobs.Board.{
  Status, queued, running, Board, Run, has_id, is_queued, time_out, is_orphan, new_run, insert_run,
  RunError, Lease, slot, scheduled,
}
use meraipo.Jobs.Due.{claim_jobs, claim_due, is_wanted, scheduled_jobs}
use meraipo.Jobs.Pipeline.{
  Outcome, claim_run, finish_run, cancel_queued, create_run, wait_for, skip, end_run, cancel,
}
use meraipo.Jobs.Pipeline.{raised, returned, final_status, stored_queued, acquire}
use meraipo.Jobs.Begin.{Begun, ended, waits, skips, claims, begin_run-Begun}
use meraipo.Jobs.Actions.{
  Action, claims_due, begins, finishes, cancels, creates, starts_job, finishes_job, act, act_all,
}
use meraipo.Jobs.Market.{Work, worked, stopped, start, start_job, finish_job, end_job}

-- Queued, running, ended.
abbrev pub stage : Status → ℕ
stage queued = 0
stage running = 1
stage _ = 2

-- The stage of the run with an identifier; 0 where there is none.
abbrev pub stage_of : ℕ → List Run → ℕ
stage_of k runs = elim (first_where (has_id k) runs) [ none ↦ 0 | some r ↦ stage r.status ]

-- An update of a run that keeps its identifier and does not lower its stage where it applies.
abbrev Raises : (Run → Bool) → (Run → Run) → Type 0
Raises p f = (r : Run) → ((f r).id ≡ r.id) × (p r ≡ true → stage r.status ≤ stage (f r).status)

stage_of-update_where :
    (k : ℕ) (p : Run → Bool) (f : Run → Run) (runs : List Run)
    → Raises p f
    → stage_of k runs ≤ stage_of k (update_where p f runs)
stage_of-update_where k p f [] g = omega arith
stage_of-update_where k p f (r ∷ rs) g = ground (arith, g r, stage_of-update_where k p f rs g)

stage_of-append : (k : ℕ) (runs more : List Run) → stage_of k runs ≤ stage_of k (runs ++ more)
stage_of-append k [] more = omega arith
stage_of-append k (r ∷ rs) more = ground (arith, stage_of-append k rs more)

stage_of-insert_run :
    (k : ℕ) (r : Run) (runs : List Run) → stage_of k runs ≤ stage_of k (insert_run r runs).0
stage_of-insert_run k r runs = ground (arith, stage_of-append k runs (r ∷ []))

stage_of-claim_jobs :
    (k now : ℕ) (db : Controls) (at : Local) (fresh : Job → ℕ) (jobs : List Job) (runs : List Run)
    → stage_of k runs ≤ stage_of k (claim_jobs now db at fresh jobs runs).0
unfolding claim_jobs
stage_of-claim_jobs k now db at fresh [] runs = omega arith
stage_of-claim_jobs k now db at fresh (job ∷ jobs) runs = elim (Bool-cases (is_wanted db at job)) [
  | inr skipped ↦ rw skipped (stage_of-claim_jobs k now db at fresh jobs runs)
  | inl wanted ↦
      let r = new_run now (fresh job) (slot job at.day at.minute) (scheduled job) in
      rw wanted (
        omega (
          arith,
          stage_of-insert_run k r runs,
          stage_of-claim_jobs k now db at fresh jobs (insert_run r runs).0,
        ))
]

time_out-Raises : (now : ℕ) → Raises (is_orphan now) (time_out now)
time_out-Raises now r = (refl, λ h. ground arith)

wait_for-Raises : (now : ℕ) (p : Run → Bool) (e : RunError) → Raises p (wait_for now e)
wait_for-Raises now p e r = (refl, λ h. omega arith)

skip-Raises : (now : ℕ) (p : Run → Bool) → Raises p (skip now)
skip-Raises now p r = (refl, λ h. ground arith)

end_run-Raises : (now : ℕ) (p : Run → Bool) (outcome : Outcome) → Raises p (end_run now outcome)
unfolding final_status
end_run-Raises now p (returned c n e) r = (refl, λ h. ground arith)
end_run-Raises now p (raised c) r = (refl, λ h. ground arith)

cancel-Raises : (now : ℕ) (p : Run → Bool) → Raises p (cancel now)
cancel-Raises now p r = (refl, λ h. ground arith)

start-Raises :
    (now k : ℕ)
    → Raises
        (λ r. has_id k r && is_queued r.status)
        (λ r. record r { status = running; started_at = some now; error = none; updated_at = now })
start-Raises now k r = (refl, λ h. ground arith)

stage_of-claim_due :
    (k now : ℕ) (enabled : Bool) (db : Controls) (at : Local) (fresh : Job → ℕ) (b : Board)
    → stage_of k b.runs ≤ stage_of k (claim_due now enabled db at fresh b).0.runs
unfolding claim_due
stage_of-claim_due k now false db at fresh b =
    stage_of-update_where k (is_orphan now) (time_out now) b.runs (time_out-Raises now)
stage_of-claim_due k now true db at fresh b = omega (
  arith,
  stage_of-update_where k (is_orphan now) (time_out now) b.runs (time_out-Raises now),
  stage_of-claim_jobs k now db at fresh scheduled_jobs
      (update_where (is_orphan now) (time_out now) b.runs),
)

stage_of-claim_run :
    (k now j : ℕ) (lease : Option Lease) (b : Board)
    → stage_of k b.runs ≤ stage_of k (claim_run now j lease b).0.runs
unfolding claim_run
stage_of-claim_run k now j lease b = elim (Bool-cases (stored_queued j b.runs)) [
  | inl q ↦ rw q (stage_of-update_where k _ _ b.runs (start-Raises now j))
  | inr n ↦ rw n (omega arith)
]

stage_of-waits :
    (k now j : ℕ) (runs : List Run) (e : RunError)
    → stage_of k runs ≤ stage_of k (update_where (has_id j) (wait_for now e) runs)
stage_of-waits k now j runs e =
    stage_of-update_where k (has_id j) (wait_for now e) runs (wait_for-Raises now (has_id j) e)

stage_of-Begun :
    (k now : ℕ) (seen : Run) (b : Board) (result : Board × Bool)
    → Begun now seen b result
    → stage_of k b.runs ≤ stage_of k result.0.runs
stage_of-Begun k now seen b _ ended = omega arith
stage_of-Begun k now seen b _ (waits e) = stage_of-waits k now seen.id b.runs e
stage_of-Begun k now seen b _ skips =
    stage_of-update_where k (has_id seen.id) (skip now) b.runs (skip-Raises now (has_id seen.id))
stage_of-Begun k now seen b _ (claims q e got) =
    stage_of-claim_run k now seen.id (acquire now seen.id b.lease).0 b

stage_of-cancel_queued :
    (k now j : ℕ) (b : Board) → stage_of k b.runs ≤ stage_of k (act (cancels now j) b).runs
unfolding cancel_queued
stage_of-cancel_queued k now j b = elim (Bool-cases (stored_queued j b.runs)) [
  | inl q ↦ rw (act, q) (stage_of-update_where k _ _ b.runs (cancel-Raises now _))
  | inr n ↦ rw (act, n) (omega arith)
]

-- Whether an operation is the start of a run by `run_job` itself.
abbrev pub starts_as_job : ℕ → Action → Bool
starts_as_job k (starts_job now seen) = seen.id == k
starts_as_job k _ = false

stage_of-other :
    (k j : ℕ) (f : Run → Run) (runs : List Run)
    → (j == k) ≡ false
    → ((r : Run) → (f r).id ≡ r.id)
    → stage_of k (update_where (has_id j) f runs) ≡ stage_of k runs
stage_of-other k j f [] n g = refl
stage_of-other k j f (r ∷ rs) n g = ground (arith, g r, stage_of-other k j f rs n g)

stage_of-start_job :
    (k now : ℕ) (seen : Run) (b : Board)
    → (seen.id == k) ≡ false
    → stage_of k (start_job now seen b).0.runs ≡ stage_of k b.runs
unfolding start_job
stage_of-start_job k now seen b n = elim (Bool-cases (is_queued seen.status)) [
  | inr x ↦ rw x refl
  | inl q ↦ elim (Bool-cases (acquire now seen.id b.lease).1) [
    | inl got ↦ rw (q, got) (stage_of-other k seen.id (start now) b.runs n (λ r. refl))
    | inr x ↦ rw (q, x) (stage_of-other k seen.id (skip now) b.runs n (λ r. refl))
  ]
]

end_job-Raises : (now : ℕ) (p : Run → Bool) (w : Work) → Raises p (end_job now w)
end_job-Raises now p (worked c n) r = (refl, λ h. ground arith)
end_job-Raises now p (stopped c) r = (refl, λ h. ground arith)

stage_of-act :
    (k : ℕ) (x : Action) (b : Board)
    → starts_as_job k x ≡ false
    → stage_of k b.runs ≤ stage_of k (act x b).runs
unfolding finish_run create_run finish_job
stage_of-act k (claims_due now enabled db at fresh) b n =
    stage_of-claim_due k now enabled db at fresh b
stage_of-act k (begins now seen) b n = stage_of-Begun k now seen b _ (begin_run-Begun now seen b)
stage_of-act k (finishes now j outcome) b n =
    stage_of-update_where k (has_id j) (end_run now outcome) b.runs
      (end_run-Raises now (has_id j) outcome)
stage_of-act k (cancels now j) b n = stage_of-cancel_queued k now j b
stage_of-act k (creates now j job) b n = stage_of-append k b.runs _
stage_of-act k (starts_job now seen) b n = omega (arith, stage_of-start_job k now seen b n)
stage_of-act k (finishes_job now j w) b n =
    stage_of-update_where k (has_id j) (end_job now w) b.runs (end_job-Raises now (has_id j) w)

-- No sequence of operations on the job board takes back the stage of a run that `run_job` does not
-- start itself, as it starts none that it hands to `run_pipeline`: what has started is never queued
-- again, and what has ended never runs again.
pub stage_only_rises :
    (k : ℕ) (acts : List Action) (b : Board)
    → any_of (starts_as_job k) acts ≡ false
    → stage_of k b.runs ≤ stage_of k (act_all acts b).runs
stage_only_rises k [] b n = omega arith
stage_only_rises k (x ∷ xs) b n =
    let first : starts_as_job k x ≡ false = ground arith in
    let rest : any_of (starts_as_job k) xs ≡ false = ground arith in
    omega (arith, stage_of-act k x b first, stage_only_rises k xs (act x b) rest)
