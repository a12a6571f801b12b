-- ===== src/Jobs/Market.antt =====
-- The two ends of `run_job` of apps/worker/market.py, for the jobs that it carries out itself: its
-- start, up to the commit of RUNNING, and its last transaction. `run_job` hands the jobs that collect,
-- publish or synchronise to `run_pipeline`.
use meraipo.Prelude.{
  ℕ, Bool, true, false, not, Option, none, some, ltb, if◌then◌else◌, update_where, or_else,
}
use meraipo.Jobs.Board.{
  Status, running, success, partial, failed, skipped, RunError, job_failed, Counts, Run, Board,
  is_queued, has_id,
}
use meraipo.Jobs.Pipeline.{acquire, release, set_run, skip}

-- `run.status, run.started_at = "RUNNING", m.now()`
abbrev pub start : ℕ → Run → Run
start now r = record r { status = running; started_at = some now; updated_at = now }

-- With whether the run goes on. `seen` is the run as the worker loaded it; the row is written whatever
-- its status is by then.
unfoldable pub start_job : ℕ → Run → Board → Board × Bool
start_job now seen b =
    if not (is_queued seen.status)
    then (b, false)
    else let lease = acquire now seen.id b.lease in
      if lease.1
      then (
        record { runs = update_where (has_id seen.id) (start now) b.runs; lease = lease.0 },
        true,
      )
      else (set_run seen.id (skip now) b, false)

-- What the body did: its counts, and its notes as one text if there are any; or it raised.
pub data Work : Type 0 where
  worked : Counts → Option RunError → Work
  stopped : Counts → Work

abbrev is_note : Option RunError → Bool
is_note none = false
is_note (some e) = true

-- A success with notes is partial.
abbrev pub job_status : Counts → Option RunError → Status
job_status c notes =
    if ltb 0 c.failed
    then (if ltb 0 c.providers then partial else failed)
    else if ltb 0 c.providers
    then (if is_note notes then partial else success)
    else skipped

-- `RunError.note 0` is "Some records failed; open run details".
abbrev some_failed : Counts → Option RunError
some_failed c = if ltb 0 c.failed then some (RunError.note 0) else none

abbrev pub end_job : ℕ → Work → Run → Run
end_job now (worked c notes) r = record r {
  status = job_status c notes;
  error = or_else notes (some_failed c);
  counters = some c;
  finished_at = some now;
  updated_at = now;
}
end_job now (stopped c) r = record r {
  status = failed;
  error = some job_failed;
  counters = some (record c { written = 0 });
  finished_at = some now;
  updated_at = now;
}

unfoldable pub finish_job : ℕ → ℕ → Work → Board → Board
finish_job now k w b = record {
  runs = update_where (has_id k) (end_job now w) b.runs;
  lease = release k b.lease;
}
