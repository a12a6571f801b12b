-- ===== src/Jobs/Actions.antt =====
-- Any sequence of the operations on the job board, of apps/worker/scheduling.py,
-- apps/worker/exchange_pipeline.py, apps/worker/market.py and apps/api/job_routes.py: the transactions
-- of `claim_due`, `run_pipeline`, `run_job`, `cancel_queued` and `create_run`. The
-- overview of apps/api/market_routes.py times runs out as `claim_due` does where it may not claim.
use meraipo.Prelude.{ℕ, Bool, none, some, List, [], ◌∷◌}
use meraipo.Schedule.Clock.{Local}
use meraipo.Schedule.Slots.{Job, Controls}
use meraipo.Jobs.Board.{Board, Run, JobName}
use meraipo.Jobs.Due.{claim_due}
use meraipo.Jobs.Pipeline.{Outcome, begin_run, finish_run, cancel_queued, create_run}
use meraipo.Jobs.Market.{Work, start_job, finish_job}

pub data Action : Type 0 where
  claims_due : ℕ → Bool → Controls → Local → (Job → ℕ) → Action
  begins : ℕ → Run → Action
  finishes : ℕ → ℕ → Outcome → Action
  cancels : ℕ → ℕ → Action
  creates : ℕ → ℕ → JobName → Action
  starts_job : ℕ → Run → Action
  finishes_job : ℕ → ℕ → Work → Action

abbrev pub act : Action → Board → Board
act (claims_due now enabled db at fresh) b = (claim_due now enabled db at fresh b).0
act (begins now seen) b = (begin_run now seen b).0
act (finishes now k outcome) b = finish_run now k outcome b
act (cancels now k) b = elim (cancel_queued now k b) [ none ↦ b | some after ↦ after ]
act (creates now k job) b = create_run now k job b
act (starts_job now seen) b = (start_job now seen b).0
act (finishes_job now k w) b = finish_job now k w b

abbrev pub act_all : List Action → Board → Board
act_all [] b = b
act_all (x ∷ xs) b = act_all xs (act x b)
