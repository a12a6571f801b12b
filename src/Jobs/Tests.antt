-- ===== src/Jobs/Tests.antt =====
-- Tests and instances of the job board at concrete runs.
use meraipo.Prelude.{◌*◌, ◌≤◌, ◌≡◌, refl, true, false, none, some, List, [], ◌∷◌}
use meraipo.Schedule.Clock.{Local}
use meraipo.Schedule.Slots.{Job, sync_prices_nse, sync_prices_bse, Controls}
use meraipo.Jobs.Board.{Board, Run, Lease, Counts, running, success, scheduled, slot, new_run}
use meraipo.Jobs.Due.{claim_due}
use meraipo.Jobs.Pipeline.{Outcome, returned, raised, begin_run, run_pipeline, final_status}
use meraipo.Jobs.Actions.{Action, begins, finishes, cancels, act_all}
use meraipo.Jobs.Order.{stage_of, stage_only_rises}
use meraipo.Jobs.Writer.{Started, starts_any, one_writer, begin_run_in_order}
use meraipo.Jobs.Ends.{at_rest, run_pipeline_ends}
use meraipo.Jobs.Again.{claim_due_once}

-- The slots of the two exchanges on one day; the first is in the queue from 100, the second from 200.
abbrev first : Run
first = new_run 100 1 (slot sync_prices_nse 20 1140) (scheduled sync_prices_nse)

abbrev second : Run
second = new_run 200 2 (slot sync_prices_bse 20 1200) (scheduled sync_prices_bse)

abbrev board : Board
board = record { runs = first ∷ second ∷ []; lease = none }

abbrev counts : Counts
counts = record { fetched = 9; written = 4; unchanged = 0; failed = 0; providers = 1 }

abbrev wanted : Outcome
wanted = returned counts none none

-- The second waits for the first; the first runs to its end.
waits_and_runs :
    ((begin_run 300 second board).1 ≡ false)
    × ((begin_run 300 first board).1 ≡ true)
    × (final_status counts ≡ success)
unfolding begin_run final_status meraipo.Jobs.Pipeline.earliest_ahead meraipo.Jobs.Pipeline.acquire
    meraipo.Jobs.Pipeline.claim_run
waits_and_runs = (refl, refl, refl)

stage_only_rises_example :
    stage_of 1 board.runs
    ≤ stage_of 1
        (act_all (begins 300 first ∷ finishes 400 1 wanted ∷ cancels 500 1 ∷ []) board).runs
stage_only_rises_example =
    stage_only_rises 1 (begins 300 first ∷ finishes 400 1 wanted ∷ cancels 500 1 ∷ []) board refl

abbrev lease : Lease
lease = record { owner = 1; expires_at = 660 }

abbrev held_board : Board
held_board = record { runs = record first { status = running } ∷ second ∷ []; lease = some lease }

abbrev attempts : List Action
attempts = begins 400 second ∷ finishes 500 2 wanted ∷ begins 660 second ∷ []

one_writer_example :
    (starts_any attempts held_board ≡ false) × ((act_all attempts held_board).lease ≡ some lease)
one_writer_example = one_writer lease attempts held_board refl refl

begun : (begin_run 300 first board).1 ≡ true
unfolding begin_run meraipo.Jobs.Pipeline.earliest_ahead meraipo.Jobs.Pipeline.acquire
    meraipo.Jobs.Pipeline.claim_run
begun = refl

begin_run_in_order_example : Started 300 first board (begin_run 300 first board).0
begin_run_in_order_example = begin_run_in_order 300 first board begun

run_pipeline_ends_example :
    let after = run_pipeline 300 400 false true wanted first board in
    (at_rest 1 after.runs ≡ true) × (after.lease ≡ none)
unfolding begin_run meraipo.Jobs.Pipeline.earliest_ahead meraipo.Jobs.Pipeline.acquire
    meraipo.Jobs.Pipeline.claim_run
run_pipeline_ends_example = run_pipeline_ends 300 400 false wanted first board refl

abbrev controls : Controls
controls = record {
  job_control = λ j. none;
  kind_control = λ k. none;
  result_source = λ e. none;
  price_source_enabled = λ e. true;
}

abbrev seven_pm : Local
seven_pm = record { day = 21; minute = 19 * 60; micros = 0 }

-- At seven in the evening the job of the NSE's prices is due.
claimed_ids : (claim_due 900 true controls seven_pm (λ j. 7) board).1 ≡ 7 ∷ []
unfolding claim_due meraipo.Jobs.Due.claim_jobs meraipo.Schedule.Slots.schedule_state
    meraipo.Schedule.Slots.is_due
claimed_ids = refl

-- Between the two the first run is cancelled and another begins.
abbrev between : List Action
between = cancels 905 1 ∷ begins 910 second ∷ []

claim_due_once_example :
    (claim_due 930 true controls seven_pm
      (λ j. 8)
      (act_all between (claim_due 900 true controls seven_pm (λ j. 7) board).0)).1
    ≡ []
claim_due_once_example = claim_due_once 900 930 controls seven_pm (λ j. 7) (λ j. 8) between board
