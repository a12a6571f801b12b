-- ===== src/Jobs/Due.antt =====
-- apps/worker/scheduling.py: the runs that have lost their worker, and the slots that are due.
use meraipo.Prelude.{ℕ, Bool, not, ◌&&◌, List, [], ◌∷◌, if◌then◌else◌, holds_of, update_where}
use meraipo.Schedule.Clock.{Local}
use meraipo.Schedule.Slots.{
  Job, sync_prices_nse, sync_prices_bse, sync_results_nse, sync_results_bse, sync_ipos, Controls,
  schedule_state, is_due,
}
use meraipo.Jobs.Board.{scheduled, slot, Run, Board, new_run, is_orphan, time_out, insert_run}

-- `state["paused"] or not state["source_enabled"] or not is_due(state, local)`; a job's times are
-- never empty, so that `is_due` has a value.
abbrev pub is_wanted : Controls → Local → Job → Bool
is_wanted db at job =
    let state = schedule_state db job in
    not state.paused
    && state.source_enabled
    && holds_of (is_due state.frequency state.weekday state.times at) (λ b. b)

-- The loop over the jobs, with the identifiers of the runs that it inserts.
unfoldable pub claim_jobs :
    ℕ → Controls → Local → (Job → ℕ) → List Job → List Run → List Run × List ℕ
claim_jobs now db at fresh [] runs = (runs, [])
claim_jobs now db at fresh (job ∷ jobs) runs =
    if is_wanted db at job
    then (let inserted =
          insert_run (new_run now (fresh job) (slot job at.day at.minute) (scheduled job)) runs in
        let rest = claim_jobs now db at fresh jobs inserted.0 in
        (rest.0, if inserted.1 then fresh job ∷ rest.1 else rest.1))
    else claim_jobs now db at fresh jobs runs

abbrev pub scheduled_jobs : List Job
scheduled_jobs =
    sync_prices_nse ∷ sync_prices_bse ∷ sync_results_nse ∷ sync_results_bse ∷ sync_ipos ∷ []

-- `claim_due`; `enabled` is the scheduler's switch with its driver.
unfoldable pub claim_due : ℕ → Bool → Controls → Local → (Job → ℕ) → Board → Board × List ℕ
claim_due now enabled db at fresh b =
    let runs = update_where (is_orphan now) (time_out now) b.runs in
    let claimed = claim_jobs now db at fresh scheduled_jobs runs in
    if enabled then (record b { runs = claimed.0 }, claimed.1) else (record b { runs = runs }, [])
