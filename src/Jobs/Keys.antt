-- ===== src/Jobs/Keys.antt =====
-- The keys of the runs on the job board of apps/worker/scheduling.py: no operation gives one up.
use meraipo.Prelude.{
  ℕ, ◌≡◌, refl, ◌∙◌, inl, inr, Option, none, some, Bool, true, false, ◌&&◌, ◌||◌, List, [], ◌∷◌,
  ◌++◌, arith, any_of, update_where, Bool-cases,
}
use meraipo.Schedule.Clock.{Local}
use meraipo.Schedule.Slots.{Job, Controls}
use meraipo.Jobs.Board.{
  Board, Run, Key, same_key, insert_run, is_orphan, time_out, Lease, is_queued, running, has_id,
}
use meraipo.Jobs.Pipeline.{
  Outcome, returned, raised, end_run, claim_run, finish_run, cancel_queued, create_run, wait_for,
  skip, cancel, acquire, stored_queued,
}
use meraipo.Jobs.Market.{Work, worked, stopped, start, start_job, finish_job, end_job}
use meraipo.Jobs.Begin.{Begun, ended, waits, skips, claims, begin_run-Begun}
use meraipo.Jobs.Actions.{
  Action, claims_due, begins, finishes, cancels, creates, starts_job, finishes_job, act,
}
use meraipo.Jobs.Due.{claim_jobs, claim_due, is_wanted, scheduled_jobs}

-- Whether a key is in use.
abbrev pub taken : Key → List Run → Bool
taken key = any_of (λ q. same_key q.key key)

pub taken-append :
    (key : Key) (r : Run) (runs : List Run)
    → taken key (runs ++ r ∷ []) ≡ (taken key runs || same_key r.key key)
taken-append key r [] = ground arith
taken-append key r (q ∷ qs) = ground (arith, taken-append key r qs)

pub taken-insert_run :
    (key : Key) (r : Run) (runs : List Run)
    → taken key runs ≡ true
    → taken key (insert_run r runs).0 ≡ true
taken-insert_run key r runs h = ground (arith, taken-append key r runs)

pub taken-claim_jobs :
    (key : Key) (now : ℕ) (db : Controls) (at : Local) (fresh : Job → ℕ) (jobs : List Job)
    (runs : List Run)
    → taken key runs ≡ true
    → taken key (claim_jobs now db at fresh jobs runs).0 ≡ true
unfolding claim_jobs
taken-claim_jobs key now db at fresh [] runs h = h
taken-claim_jobs key now db at fresh (job ∷ jobs) runs h = elim (Bool-cases (is_wanted db at job)) [
  | inr n ↦ rw n (taken-claim_jobs key now db at fresh jobs runs h)
  | inl w ↦ rw w (taken-claim_jobs key now db at fresh jobs _ (taken-insert_run key _ runs h))
]

pub taken-update_where :
    (key : Key) (p : Run → Bool) (now : ℕ) (runs : List Run)
    → taken key (update_where p (time_out now) runs) ≡ taken key runs
taken-update_where key p now [] = refl
taken-update_where key p now (r ∷ rs) = ground (arith, taken-update_where key p now rs)

-- An operation on the board takes no key out of use.
taken-rows :
    (key : Key) (p : Run → Bool) (f : Run → Run) (runs : List Run)
    → ((r : Run) → (f r).key ≡ r.key)
    → taken key (update_where p f runs) ≡ taken key runs
taken-rows key p f [] g = refl
taken-rows key p f (r ∷ rs) g = ground (arith, g r, taken-rows key p f rs g)

end_run-key : (now : ℕ) (o : Outcome) (r : Run) → (end_run now o r).key ≡ r.key
end_run-key now (returned c n e) r = refl
end_run-key now (raised c) r = refl

end_job-key : (now : ℕ) (w : Work) (r : Run) → (end_job now w r).key ≡ r.key
end_job-key now (worked c n) r = refl
end_job-key now (stopped c) r = refl

taken-claim_run :
    (key : Key) (now k : ℕ) (lease : Option Lease) (b : Board)
    → taken key (claim_run now k lease b).0.runs ≡ taken key b.runs
unfolding claim_run
taken-claim_run key now k lease b = elim (Bool-cases (stored_queued k b.runs)) [
  | inl q ↦ rw q (
      taken-rows key (λ r. has_id k r && is_queued r.status)
        (λ r. record r { status = running; started_at = some now; error = none; updated_at = now })
        b.runs (λ r. refl))
  | inr n ↦ rw n refl
]

taken-Begun :
    (key : Key) (now : ℕ) (seen : Run) (b : Board) (result : Board × Bool)
    → Begun now seen b result
    → taken key result.0.runs ≡ taken key b.runs
taken-Begun key now seen b _ ended = refl
taken-Begun key now seen b _ (waits e) =
    taken-rows key (has_id seen.id) (wait_for now e) b.runs (λ r. refl)
taken-Begun key now seen b _ skips = taken-rows key (has_id seen.id) (skip now) b.runs (λ r. refl)
taken-Begun key now seen b _ (claims q f got) =
    taken-claim_run key now seen.id (acquire now seen.id b.lease).0 b

taken-cancel_queued :
    (key : Key) (now k : ℕ) (b : Board) → taken key (act (cancels now k) b).runs ≡ taken key b.runs
unfolding cancel_queued
taken-cancel_queued key now k b = elim (Bool-cases (stored_queued k b.runs)) [
  | inl q ↦
      rw (act, q)
        (taken-rows key (λ r. has_id k r && is_queued r.status) (cancel now) b.runs (λ r. refl))
  | inr n ↦ rw (act, n) refl
]

taken-start_job :
    (key : Key) (now : ℕ) (seen : Run) (b : Board)
    → taken key (start_job now seen b).0.runs ≡ taken key b.runs
unfolding start_job
taken-start_job key now seen b = elim (Bool-cases (is_queued seen.status)) [
  | inr n ↦ rw n refl
  | inl q ↦ elim (Bool-cases (acquire now seen.id b.lease).1) [
    | inl y ↦ rw (q, y) (taken-rows key (has_id seen.id) (start now) b.runs (λ r. refl))
    | inr n ↦ rw (q, n) (taken-rows key (has_id seen.id) (skip now) b.runs (λ r. refl))
  ]
]

taken-more :
    (key : Key) (r : Run) (runs : List Run)
    → taken key runs ≡ true
    → taken key (runs ++ r ∷ []) ≡ true
taken-more key r runs h = ground (arith, taken-append key r runs)

taken-claim_due :
    (key : Key) (now : ℕ) (enabled : Bool) (db : Controls) (at : Local) (fresh : Job → ℕ)
    (b : Board)
    → taken key b.runs ≡ true
    → taken key (claim_due now enabled db at fresh b).0.runs ≡ true
unfolding claim_due
taken-claim_due key now false db at fresh b h =
    taken-update_where key (is_orphan now) now b.runs ∙ h
taken-claim_due key now true db at fresh b h =
    taken-claim_jobs key now db at fresh scheduled_jobs _
      (taken-update_where key (is_orphan now) now b.runs ∙ h)

pub taken-act :
    (key : Key) (x : Action) (b : Board) → taken key b.runs ≡ true → taken key (act x b).runs ≡ true
unfolding finish_run create_run finish_job
taken-act key (claims_due now enabled db at fresh) b h =
    taken-claim_due key now enabled db at fresh b h
taken-act key (begins now seen) b h = taken-Begun key now seen b _ (begin_run-Begun now seen b) ∙ h
taken-act key (finishes now k o) b h =
    taken-rows key (has_id k) (end_run now o) b.runs (end_run-key now o) ∙ h
taken-act key (cancels now k) b h = taken-cancel_queued key now k b ∙ h
taken-act key (creates now k job) b h = taken-more key _ b.runs h
taken-act key (starts_job now seen) b h = taken-start_job key now seen b ∙ h
taken-act key (finishes_job now k w) b h =
    taken-rows key (has_id k) (end_job now w) b.runs (end_job-key now w) ∙ h
