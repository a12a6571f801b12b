-- ===== src/Jobs/Again.antt =====
-- `claim_due` of apps/worker/scheduling.py claims a slot once.
use meraipo.Prelude.{
  ℕ, ◌≡◌, refl, ◌∙◌, inl, inr, Bool, true, not, ◌&&◌, ◌||◌, List, [], ◌∷◌, arith, update_where,
  Bool-cases,
}
use meraipo.Schedule.Clock.{Local}
use meraipo.Schedule.Slots.{Job, Controls}
use meraipo.Jobs.Board.{
  Board, Run, slot, same_key, scheduled, new_run, insert_run, is_orphan, time_out,
}
use meraipo.Jobs.Actions.{Action, act, act_all}
use meraipo.Jobs.Keys.{taken-append, taken, taken-claim_jobs, taken-update_where, taken-act}
use meraipo.Jobs.Due.{claim_jobs, claim_due, is_wanted, scheduled_jobs}

slot_same : (j : Job) (d m : ℕ) → same_key (slot j d m) (slot j d m) ≡ true
slot_same j d m = ground arith

inserted_taken :
    (now id : ℕ) (job : Job) (at : Local) (runs : List Run)
    → taken
        (slot job at.day at.minute)
        (insert_run (new_run now id (slot job at.day at.minute) (scheduled job)) runs).0
      ≡ true
inserted_taken now id job at runs =
    let r = new_run now id (slot job at.day at.minute) (scheduled job) in
    ground (arith, taken-append (slot job at.day at.minute) r runs, slot_same job at.day at.minute)

-- Every wanted job of a list has its slot taken.
abbrev all_taken : Controls → Local → List Job → List Run → Bool
all_taken db at [] runs = true
all_taken db at (job ∷ jobs) runs =
    let rest = all_taken db at jobs runs in
    (not (is_wanted db at job) || taken (slot job at.day at.minute) runs) && rest

all_taken-claim_jobs :
    (now : ℕ) (db : Controls) (at : Local) (fresh : Job → ℕ) (jobs : List Job) (runs : List Run)
    → all_taken db at jobs (claim_jobs now db at fresh jobs runs).0 ≡ true
unfolding claim_jobs
all_taken-claim_jobs now db at fresh [] runs = refl
all_taken-claim_jobs now db at fresh (job ∷ jobs) runs = elim (Bool-cases (is_wanted db at job)) [
  | inr n ↦ rw n (all_taken-claim_jobs now db at fresh jobs runs)
  | inl w ↦ rw w (
      rw
        (taken-claim_jobs (slot job at.day at.minute) now db at fresh jobs _
          (inserted_taken now (fresh job) job at runs))
        (all_taken-claim_jobs now db at fresh jobs _))
]

claim_jobs-taken :
    (now : ℕ) (db : Controls) (at : Local) (fresh : Job → ℕ) (jobs : List Job) (runs : List Run)
    → all_taken db at jobs runs ≡ true
    → claim_jobs now db at fresh jobs runs ≡ (runs, [])
unfolding claim_jobs
claim_jobs-taken now db at fresh [] runs h = refl
claim_jobs-taken now db at fresh (job ∷ jobs) runs h = elim (Bool-cases (is_wanted db at job)) [
  | inr n ↦ rw n (claim_jobs-taken now db at fresh jobs runs (ground arith))
  | inl w ↦
      let t : taken (slot job at.day at.minute) runs ≡ true = ground arith in
      rw (w, t) (rw (claim_jobs-taken now db at fresh jobs runs (ground arith)) refl)
]

all_taken-update_where :
    (db : Controls) (at : Local) (p : Run → Bool) (now : ℕ) (jobs : List Job) (runs : List Run)
    → all_taken db at jobs (update_where p (time_out now) runs) ≡ all_taken db at jobs runs
all_taken-update_where db at p now [] runs = refl
all_taken-update_where db at p now (job ∷ jobs) runs =
    rw
      (
        taken-update_where (slot job at.day at.minute) p now runs,
        all_taken-update_where db at p now jobs runs,
      )
      refl

all_taken-act :
    (db : Controls) (at : Local) (jobs : List Job) (x : Action) (b : Board)
    → all_taken db at jobs b.runs ≡ true
    → all_taken db at jobs (act x b).runs ≡ true
all_taken-act db at [] x b h = refl
all_taken-act db at (job ∷ jobs) x b h =
    let rest = all_taken-act db at jobs x b (ground arith) in
    elim (Bool-cases (is_wanted db at job)) [
      | inr n ↦ rw (n, rest) refl
      | inl w ↦
          let now_taken : taken (slot job at.day at.minute) b.runs ≡ true = ground arith in
          rw (w, taken-act (slot job at.day at.minute) x b now_taken, rest) refl
    ]

all_taken-act_all :
    (db : Controls) (at : Local) (jobs : List Job) (acts : List Action) (b : Board)
    → all_taken db at jobs b.runs ≡ true
    → all_taken db at jobs (act_all acts b).runs ≡ true
all_taken-act_all db at jobs [] b h = h
all_taken-act_all db at jobs (x ∷ xs) b h =
    all_taken-act_all db at jobs xs (act x b) (all_taken-act db at jobs x b h)

-- A second `claim_due` for the same minute and with the same controls claims nothing, at whatever time
-- and after whatever sequence of other operations on the board: the keys of the slots are unique, and
-- no operation gives one up.
pub claim_due_once :
    (now later : ℕ) (db : Controls) (at : Local) (fresh fresh' : Job → ℕ) (acts : List Action)
    (b : Board)
    → (claim_due later true db at fresh' (act_all acts (claim_due now true db at fresh b).0)).1 ≡ []
unfolding claim_due
claim_due_once now later db at fresh fresh' acts b =
    let runs = update_where (is_orphan now) (time_out now) b.runs in
    let first = (claim_due now true db at fresh b).0 in
    let after = (act_all acts first).runs in
    rw
      (claim_jobs-taken later db at fresh' scheduled_jobs
        (update_where (is_orphan later) (time_out later) after)
        (all_taken-update_where db at (is_orphan later) later scheduled_jobs after
          ∙ all_taken-act_all db at scheduled_jobs acts first
              (all_taken-claim_jobs now db at fresh scheduled_jobs runs)))
      refl
