-- ===== src/Jobs/Ends.antt =====
-- A run that `run_pipeline` of apps/worker/exchange_pipeline.py takes up comes to an end.
use mathlib.Core.Bool.{false≢true}
use meraipo.Schedule.Clock.{Local}
use meraipo.Schedule.Slots.{Job, Controls}
use meraipo.Jobs.Due.{claim_due}
use meraipo.Prelude.{
  ◌||◌, is_some, ◌<◌, ◌==◌, all_of, if◌then◌else◌, ℕ, ◌+◌, ◌≡◌, refl, sym, ◌∙◌, inl, inr, Bool,
  true, false, not, ◌&&◌, Option, none, some, List, [], ◌∷◌, arith, any_of, update_where,
  Bool-cases,
}
use meraipo.Jobs.Board.{
  running, RunError, Board, Run, Lease, has_id, is_running, is_queued, is_orphan, time_out,
}
use meraipo.Jobs.Pipeline.{
  Outcome, returned, raised, final_status, begin_run, claim_run, finish_run, run_pipeline, acquire,
  release, end_run, stored_queued,
}
use meraipo.Jobs.Pipeline.{wait_for, skip}
use meraipo.Jobs.Begin.{Begun, ended, waits, skips, claims, begin_run-Begun}
use meraipo.Jobs.Writer.{begin_run_in_order}

-- The run of an identifier is not in progress.
abbrev pub at_rest : ℕ → List Run → Bool
at_rest k runs = not (any_of (λ r. has_id k r && is_running r.status) runs)

ends_at_rest :
    (now k : ℕ) (outcome : Outcome) (runs : List Run)
    → at_rest k (update_where (has_id k) (end_run now outcome) runs) ≡ true
unfolding final_status
ends_at_rest now k outcome [] = refl
ends_at_rest now k (returned c n e) (r ∷ rs) =
    ground (arith, ends_at_rest now k (returned c n e) rs)
ends_at_rest now k (raised c) (r ∷ rs) = ground (arith, ends_at_rest now k (raised c) rs)

waits_at_rest :
    (now k j : ℕ) (e : RunError) (runs : List Run)
    → at_rest k (update_where (has_id j) (wait_for now e) runs) ≡ at_rest k runs
waits_at_rest now k j e [] = refl
waits_at_rest now k j e (r ∷ rs) = ground (arith, waits_at_rest now k j e rs)

skips_at_rest :
    (now k : ℕ) (runs : List Run) → at_rest k (update_where (has_id k) (skip now) runs) ≡ true
skips_at_rest now k [] = refl
skips_at_rest now k (r ∷ rs) = ground (arith, skips_at_rest now k rs)

claim_run-none :
    (now k : ℕ) (lease : Option Lease) (b : Board)
    → (claim_run now k lease b).1 ≡ false
    → (claim_run now k lease b).0.runs ≡ b.runs
unfolding claim_run
claim_run-none now k lease b h = elim (Bool-cases (stored_queued k b.runs)) [
  | inl q ↦ absurd (false≢true (sym (rw q at h)))
  | inr n ↦ rw n refl
]

Begun-rest :
    (now : ℕ) (seen : Run) (b : Board) (result : Board × Bool)
    → Begun now seen b result
    → at_rest seen.id b.runs ≡ true
    → result.1 ≡ false
    → at_rest seen.id result.0.runs ≡ true
Begun-rest now seen b _ ended h n = h
Begun-rest now seen b _ (waits e) h n = waits_at_rest now seen.id seen.id e b.runs ∙ h
Begun-rest now seen b _ skips h n = skips_at_rest now seen.id b.runs
Begun-rest now seen b _ (claims q f got) h n =
    rw (claim_run-none now seen.id (acquire now seen.id b.lease).0 b n) h

release-own : (k e : ℕ) → release k (some (record { owner = k; expires_at = e })) ≡ none
unfolding release
release-own k e = ground arith

finish_run-rest :
    (now k : ℕ) (outcome : Outcome) (b : Board) → at_rest k (finish_run now k outcome b).runs ≡ true
unfolding finish_run
finish_run-rest now k outcome b = ends_at_rest now k outcome b.runs

finish_run-lease :
    (now k e : ℕ) (outcome : Outcome) (b : Board)
    → b.lease ≡ some (record { owner = k; expires_at = e })
    → (finish_run now k outcome b).lease ≡ none
unfolding finish_run
finish_run-lease now k e outcome b h = rw h (release-own k e)

-- Where its last commit succeeds, `run_pipeline` leaves a run that was not in progress at rest,
-- waiting or ended, whether the import returned or raised or never began; and if it began, the lease
-- is given back.
pub run_pipeline_ends :
    (now later : ℕ) (paused : Bool) (outcome : Outcome) (seen : Run) (b : Board)
    → at_rest seen.id b.runs ≡ true
    → let after = run_pipeline now later paused true outcome seen b in
      (at_rest seen.id after.runs ≡ true)
      × (after.lease ≡ (if (begin_run now seen b).1 then none else (begin_run now seen b).0.lease))
unfolding run_pipeline
run_pipeline_ends now later paused outcome seen b h = elim (Bool-cases (begin_run now seen b).1) [
  | inl s ↦ rw s (
    finish_run-rest later seen.id _ _,
    finish_run-lease later seen.id (now + 360) _ _ (begin_run_in_order now seen b s).lease,
  )
  | inr n ↦ rw n (Begun-rest now seen b _ (begin_run-Begun now seen b) h n, refl)
]

-- The rows of a run have a job.
abbrev has_job : ℕ → List Run → Bool
has_job k = all_of (λ r. not (has_id k r) || is_some r.job)

-- The rows of a run have a job, and were last written at a time if they are in progress.
abbrev written_at : ℕ → ℕ → List Run → Bool
written_at k now =
    all_of
      (λ r. not (has_id k r) || is_some r.job && (not (is_running r.status) || r.updated_at == now))

claimed-written_at :
    (now k : ℕ) (runs : List Run)
    → at_rest k runs ≡ true
    → has_job k runs ≡ true
    → written_at k now (
        update_where
          (λ r. has_id k r && is_queued r.status)
          (λ r. record r {
            status = running;
            started_at = some now;
            error = none;
            updated_at = now;
          })
          runs)
      ≡ true
claimed-written_at now k [] h g = refl
claimed-written_at now k (r ∷ rs) h g = ground (arith, claimed-written_at now k rs)

at_rest-written_at :
    (now k : ℕ) (runs : List Run)
    → at_rest k runs ≡ true
    → has_job k runs ≡ true
    → written_at k now runs ≡ true
at_rest-written_at now k [] h g = refl
at_rest-written_at now k (r ∷ rs) h g = ground (arith, at_rest-written_at now k rs)

waits-has_job :
    (now k : ℕ) (e : RunError) (runs : List Run)
    → has_job k (update_where (has_id k) (wait_for now e) runs) ≡ has_job k runs
waits-has_job now k e [] = refl
waits-has_job now k e (r ∷ rs) = ground (arith, waits-has_job now k e rs)

skips-has_job :
    (now k : ℕ) (runs : List Run)
    → has_job k (update_where (has_id k) (skip now) runs) ≡ has_job k runs
skips-has_job now k [] = refl
skips-has_job now k (r ∷ rs) = ground (arith, skips-has_job now k rs)

claim_run-written_at :
    (now k : ℕ) (lease : Option Lease) (b : Board)
    → at_rest k b.runs ≡ true
    → has_job k b.runs ≡ true
    → written_at k now (claim_run now k lease b).0.runs ≡ true
unfolding claim_run
claim_run-written_at now k lease b h g = elim (Bool-cases (stored_queued k b.runs)) [
  | inl q ↦ rw q (claimed-written_at now k b.runs h g)
  | inr n ↦ rw n (at_rest-written_at now k b.runs h g)
]

Begun-written_at :
    (now : ℕ) (seen : Run) (b : Board) (result : Board × Bool)
    → Begun now seen b result
    → at_rest seen.id b.runs ≡ true
    → has_job seen.id b.runs ≡ true
    → written_at seen.id now result.0.runs ≡ true
Begun-written_at now seen b _ ended h g = at_rest-written_at now seen.id b.runs h g
Begun-written_at now seen b _ (waits e) h g =
    at_rest-written_at now seen.id _ (waits_at_rest now seen.id seen.id e b.runs ∙ h)
      (waits-has_job now seen.id e b.runs ∙ g)
Begun-written_at now seen b _ skips h g =
    at_rest-written_at now seen.id _ (skips_at_rest now seen.id b.runs)
      (skips-has_job now seen.id b.runs ∙ g)
Begun-written_at now seen b _ (claims q f got) h g =
    claim_run-written_at now seen.id (acquire now seen.id b.lease).0 b h g

timed_out-at_rest :
    (now k t : ℕ) (runs : List Run)
    → written_at k now runs ≡ true
    → now + 600 < t
    → at_rest k (update_where (is_orphan t) (time_out t) runs) ≡ true
timed_out-at_rest now k t [] w h = refl
timed_out-at_rest now k t (r ∷ rs) w h = ground (arith, timed_out-at_rest now k t rs)

-- Where the last commit of `run_pipeline` fails, a run of a job that was not in progress before
-- it began is brought to rest by any `claim_due`, even one that may not claim, more than ten
-- minutes after the start.
run_pipeline_lost :
    (now later t : ℕ) (paused : Bool) (outcome : Outcome) (seen : Run) (b : Board) (db : Controls)
    (at : Local) (fresh : Job → ℕ)
    → at_rest seen.id b.runs ≡ true
    → has_job seen.id b.runs ≡ true
    → now + 600 < t
    → at_rest seen.id
        (claim_due t false db at fresh (run_pipeline now later paused false outcome seen b)).0.runs
      ≡ true
unfolding run_pipeline claim_due
run_pipeline_lost now later t paused outcome seen b db at fresh h g late =
    elim (Bool-cases (begin_run now seen b).1) [
      | inl s ↦ rw s (
          timed_out-at_rest now seen.id t _
            (Begun-written_at now seen b _ (begin_run-Begun now seen b) h g) late)
      | inr s ↦ rw s (
          timed_out-at_rest now seen.id t _
            (Begun-written_at now seen b _ (begin_run-Begun now seen b) h g) late)
    ]
