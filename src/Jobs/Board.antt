-- ===== src/Jobs/Board.antt =====
-- The rows of the job board: `ImportRun` and `JobLock` of packages/database/models.py, less the
-- columns that no modelled code decides on. Times are seconds; identifiers are numbers.
use meraipo.Prelude.{
  ℕ, ◌+◌, Bool, true, false, ◌&&◌, Option, none, some, List, [], ◌∷◌, ◌++◌, ltb, ◌==◌,
  if◌then◌else◌, is_some, any_of,
}
use meraipo.Schedule.Slots.{
  Job, sync_prices_nse, sync_prices_bse, sync_results_nse, sync_results_bse, sync_ipos,
}

pub data Status : Type 0 where
  queued running success partial failed skipped cancelled : Status

-- A scheduled job, or one of the others by its number.
pub data JobName : Type 0 where
  scheduled : Job → JobName
  other_job : ℕ → JobName

-- The key of a slot of a scheduled job, or a fresh one.
pub data Key : Type 0 where
  slot : Job → ℕ → ℕ → Key
  unique : ℕ → Key

pub data RunError : Type 0 where
  waiting_for : ℕ → RunError
  waiting_for_import another_job_running cancelled_by_administrator worker_timeout pipeline_failed
        job_failed paused_note :
      RunError
  note : ℕ → RunError

pub record Counts : Type 0 where
  pub fetched : ℕ
  pub written : ℕ
  pub unchanged : ℕ
  pub failed : ℕ
  pub providers : ℕ

pub record Run : Type 0 where
  pub id : ℕ
  pub key : Key
  pub job : Option JobName
  pub status : Status
  pub error : Option RunError
  pub created_at : ℕ
  pub updated_at : ℕ
  pub started_at : Option ℕ
  pub finished_at : Option ℕ
  pub counters : Option Counts

pub record Lease : Type 0 where
  pub owner : ℕ
  pub expires_at : ℕ

pub record Board : Type 0 where
  pub runs : List Run
  pub lease : Option Lease

abbrev pub is_queued : Status → Bool
is_queued queued = true
is_queued _ = false

abbrev pub is_running : Status → Bool
is_running running = true
is_running _ = false

abbrev pub has_id : ℕ → Run → Bool
has_id k r = r.id == k

abbrev pub job_code : Job → ℕ
job_code sync_prices_nse = 0
job_code sync_prices_bse = 1
job_code sync_results_nse = 2
job_code sync_results_bse = 3
job_code sync_ipos = 4

abbrev pub same_key : Key → Key → Bool
same_key (slot j d m) (slot k e n) = job_code j == job_code k && d == e && m == n
same_key (unique a) (unique b) = a == b
same_key _ _ = false

abbrev pub new_run : ℕ → ℕ → Key → JobName → Run
new_run now id key job = record {
  id = id;
  key = key;
  job = some job;
  status = queued;
  error = none;
  created_at = now;
  updated_at = now;
  started_at = none;
  finished_at = none;
  counters = none;
}

-- A run that has been running for ten minutes without a write has lost its worker.
abbrev pub is_orphan : ℕ → Run → Bool
is_orphan now r = is_some r.job && is_running r.status && ltb (r.updated_at + 600) now

abbrev pub time_out : ℕ → Run → Run
time_out now r = record r {
  status = failed;
  error = some worker_timeout;
  finished_at = some now;
  updated_at = now;
}

-- `insert … on_conflict_do_nothing … returning`: whether the key was new.
abbrev pub insert_run : Run → List Run → List Run × Bool
insert_run r runs =
    if any_of (λ q. same_key q.key r.key) runs then (runs, false) else (runs ++ r ∷ [], true)
