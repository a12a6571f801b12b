-- ===== src/Jobs/Begin.antt =====
-- The ways in which `run_pipeline` of apps/worker/exchange_pipeline.py can begin.
use meraipo.Prelude.{
  ℕ, ◌≡◌, inl, inr, Bool, true, false, Option, none, if◌then◌else◌, Bool-cases, Option-cases,
}
use meraipo.Jobs.Board.{Board, Run, RunError, waiting_for, waiting_for_import, is_queued}
use meraipo.Jobs.Pipeline.{
  begin_run, claim_run, set_run, wait_for, skip, acquire, is_scheduled, earliest_ahead,
}

-- The run that a worker waits for, if it is a scheduled one.
abbrev pub first_ahead : Run → Board → Option Run
first_ahead seen b = if is_scheduled seen.job then earliest_ahead seen b.runs else none

pub data Begun (now : ℕ) (seen : Run) (b : Board) : Board × Bool → Type 0 where
  ended : Begun now seen b (b, false)
  waits : (e : RunError) → Begun now seen b (set_run seen.id (wait_for now e) b, false)
  skips : Begun now seen b (set_run seen.id (skip now) b, false)
  claims :
      is_queued seen.status ≡ true
      → first_ahead seen b ≡ none
      → (acquire now seen.id b.lease).1 ≡ true
      → Begun now seen b (claim_run now seen.id (acquire now seen.id b.lease).0 b)

begin_run-unleased :
    (now : ℕ) (seen : Run) (b : Board) (s : Bool)
    → Begun now seen b
        (set_run seen.id (if s then wait_for now waiting_for_import else skip now) b, false)
begin_run-unleased now seen b true = waits waiting_for_import
begin_run-unleased now seen b false = skips

pub begin_run-Begun : (now : ℕ) (seen : Run) (b : Board) → Begun now seen b (begin_run now seen b)
unfolding begin_run
begin_run-Begun now seen b = elim (Bool-cases (is_queued seen.status)) [
  | inr n ↦ rw n ended
  | inl q ↦ elim (Option-cases (first_ahead seen b)) [
    | inr (r, e) ↦ rw (q, e) (waits (waiting_for r.id))
    | inl e ↦ elim (Bool-cases (acquire now seen.id b.lease).1) [
      | inl got ↦ rw (q, e, got) (claims q e got)
      | inr lost ↦ rw (q, e, lost) (begin_run-unleased now seen b (is_scheduled seen.job))
    ]
  ]
]
