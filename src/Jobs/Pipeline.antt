-- ===== src/Jobs/Pipeline.antt =====
-- A run's life: `acquire` and `create_run` of apps/worker/market.py, `run_pipeline` of
-- apps/worker/exchange_pipeline.py in its two transactions, and `cancel_queued` of
-- apps/api/job_routes.py.
use meraipo.Prelude.{
  ℕ, ◌+◌, Bool, true, false, not, ◌&&◌, ◌||◌, Option, none, some, List, [], ◌∷◌, ◌++◌, ltb, ◌==◌,
  if◌then◌else◌, any_of, update_where, or_else,
}
use meraipo.Jobs.Board.{
  Status, running, success, partial, failed, skipped, cancelled, JobName, scheduled, unique,
  RunError, waiting_for, waiting_for_import, another_job_running, cancelled_by_administrator,
  pipeline_failed, paused_note, Counts, Run, Lease, Board, is_queued, has_id, new_run,
}

-- `acquire`: the lease of six minutes, where there is none or the old one has run out.
unfoldable pub acquire : ℕ → ℕ → Option Lease → Option Lease × Bool
acquire now owner none = (some (record { owner = owner; expires_at = now + 360 }), true)
acquire now owner (some l) =
    if ltb l.expires_at now
    then (some (record { owner = owner; expires_at = now + 360 }), true)
    else (some l, false)

-- `delete(m.JobLock).where(m.JobLock.owner == run.id)`
unfoldable pub release : ℕ → Option Lease → Option Lease
release owner none = none
release owner (some l) = if l.owner == owner then none else some l

abbrev pub is_scheduled : Option JobName → Bool
is_scheduled (some (scheduled j)) = true
is_scheduled _ = false

-- `(created_at, id)` before that of another run.
abbrev pub precedes : Run → Run → Bool
precedes a b = ltb a.created_at b.created_at || a.created_at == b.created_at && ltb a.id b.id

-- A scheduled run that is queued before another.
abbrev pub is_ahead : Run → Run → Bool
is_ahead run q = is_scheduled q.job && is_queued q.status && precedes q run

abbrev earlier_of : Run → Option Run → Run
earlier_of q none = q
earlier_of q (some r) = if precedes r q then r else q

-- The first of those, by `order_by(created_at, id).limit(1)`.
unfoldable pub earliest_ahead : Run → List Run → Option Run
earliest_ahead run [] = none
earliest_ahead run (q ∷ qs) =
    let rest = earliest_ahead run qs in if is_ahead run q then some (earlier_of q rest) else rest

abbrev pub set_run : ℕ → (Run → Run) → Board → Board
set_run k f b = record b { runs = update_where (has_id k) f b.runs }

-- The conditional update from QUEUED to RUNNING; where it changes no row, the lease goes back.
abbrev pub stored_queued : ℕ → List Run → Bool
stored_queued k = any_of (λ r. has_id k r && is_queued r.status)

unfoldable pub claim_run : ℕ → ℕ → Option Lease → Board → Board × Bool
claim_run now k lease b =
    if stored_queued k b.runs
    then (
      record {
        runs =
            update_where (λ r. has_id k r && is_queued r.status)
              (λ r. record r {
                status = running;
                started_at = some now;
                error = none;
                updated_at = now;
              })
              b.runs;
        lease = lease;
      },
      true,
    )
    else (record b { lease = release k lease }, false)

abbrev pub wait_for : ℕ → RunError → Run → Run
wait_for now e r = record r { error = some e; updated_at = now }

abbrev pub skip : ℕ → Run → Run
skip now r = record r {
  status = skipped;
  error = some another_job_running;
  finished_at = some now;
  updated_at = now;
}

-- `run_pipeline` up to the import, with whether it goes on. `seen` is the run as the worker loaded
-- it, which may be older than the stored row.
unfoldable pub begin_run : ℕ → Run → Board → Board × Bool
begin_run now seen b =
    if not (is_queued seen.status)
    then (b, false)
    else elim (if is_scheduled seen.job then earliest_ahead seen b.runs else none) [
      | some q ↦ (set_run seen.id (wait_for now (waiting_for q.id)) b, false)
      | none ↦
          let lease = acquire now seen.id b.lease in
          if lease.1 then claim_run now seen.id lease.0 b else (
            set_run seen.id
                (if is_scheduled seen.job then wait_for now waiting_for_import else skip now) b,
            false,
          )
    ]

-- What the import did: it returned its counts, its note and the last stored error, or it raised.
pub data Outcome : Type 0 where
  returned : Counts → Option RunError → Option RunError → Outcome
  raised : Counts → Outcome

-- The counts of a paused job, and of any job at the start.
abbrev pub no_counts : Counts
no_counts = record { fetched = 0; written = 0; unchanged = 0; failed = 0; providers = 0 }

unfoldable pub final_status : Counts → Status
final_status c =
    if ltb 0 c.failed
    then (if ltb 0 c.providers then partial else failed)
    else if ltb 0 c.providers
    then success
    else skipped

abbrev pub end_run : ℕ → Outcome → Run → Run
end_run now (returned c n last) r = record r {
  status = final_status c;
  error = or_else n last;
  counters = some c;
  finished_at = some now;
  updated_at = now;
}
end_run now (raised c) r = record r {
  status = failed;
  error = some pipeline_failed;
  counters = some (record c { written = 0; failed = c.failed + 1 });
  finished_at = some now;
  updated_at = now;
}

-- `run_pipeline` from the import's end on, as its last transaction writes it.
unfoldable pub finish_run : ℕ → ℕ → Outcome → Board → Board
finish_run now k outcome b = record {
  runs = update_where (has_id k) (end_run now outcome) b.runs;
  lease = release k b.lease;
}

-- The whole of `run_pipeline` where no other transaction falls between its two. A paused job imports
-- nothing. `committed` is false where `commit_with_invalidation` raises: then nothing of the last
-- transaction is stored.
unfoldable pub run_pipeline : ℕ → ℕ → Bool → Bool → Outcome → Run → Board → Board
run_pipeline now later paused committed outcome seen b =
    let begun = begin_run now seen b in
    if begun.1 && committed
    then finish_run later seen.id
        (if paused then returned no_counts (some paused_note) none else outcome) begun.0
    else begun.0

abbrev pub cancel : ℕ → Run → Run
cancel now r = record r {
  status = cancelled;
  error = some cancelled_by_administrator;
  finished_at = some now;
  updated_at = now;
}

-- `cancel_queued`; `none` is the refusal, 409.
unfoldable pub cancel_queued : ℕ → ℕ → Board → Option Board
cancel_queued now k b =
    if stored_queued k b.runs
    then some (record b {
      runs = update_where (λ r. has_id k r && is_queued r.status) (cancel now) b.runs;
    })
    else none

-- `create_run`, for any job; its key is a fresh identifier.
unfoldable pub create_run : ℕ → ℕ → JobName → Board → Board
create_run now k job b = record b { runs = b.runs ++ new_run now k (unique k) job ∷ [] }
