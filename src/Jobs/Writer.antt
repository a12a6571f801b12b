-- ===== src/Jobs/Writer.antt =====
-- The writer's lease, the order of the scheduled runs, and the end of a run.
use mathlib.Core.Bool.{false≢true}
use meraipo.Prelude.{
  ℕ, ◌+◌, ◌≡◌, refl, sym, ◌∙◌, inl, inr, Bool, true, false, not, ◌&&◌, ◌||◌, Option, none, some,
  List, [], ◌∷◌, arith, leb, ◌==◌, any_of, Bool-cases,
}
use meraipo.Jobs.Board.{Board, Run, Lease, is_queued}
use meraipo.Jobs.Due.{claim_due}
use meraipo.Jobs.Pipeline.{
  begin_run, claim_run, finish_run, cancel_queued, create_run, acquire, release, is_scheduled,
  is_ahead, earliest_ahead, stored_queued,
}
use meraipo.Jobs.Begin.{Begun, ended, waits, skips, claims, begin_run-Begun}
use meraipo.Jobs.Actions.{
  Action, claims_due, begins, finishes, cancels, creates, starts_job, finishes_job, act, act_all,
}
use meraipo.Jobs.Market.{start_job, finish_job}

-- Whether an operation is the start of a run that goes on to its import.
abbrev pub starts : Action → Board → Bool
starts (begins now seen) b = (begin_run now seen b).1
starts (starts_job now seen) b = (start_job now seen b).1
starts _ b = false

-- Whether a sequence of operations starts any import.
abbrev pub starts_any : List Action → Board → Bool
starts_any [] b = false
starts_any (x ∷ xs) b = let rest = starts_any xs (act x b) in starts x b || rest

-- An operation that is no later than the lease's end, and that is not the end of the run which holds
-- the lease.
abbrev pub under : Lease → Action → Bool
under l (begins now seen) = leb now l.expires_at
under l (finishes now k outcome) = not (l.owner == k)
under l (starts_job now seen) = leb now l.expires_at
under l (finishes_job now k w) = not (l.owner == k)
under l _ = true

abbrev pub all_under : Lease → List Action → Bool
all_under l [] = true
all_under l (x ∷ xs) = let rest = all_under l xs in under l x && rest

release-other : (k : ℕ) (l : Lease) → not (l.owner == k) ≡ true → release k (some l) ≡ some l
unfolding release
release-other k l h = ground arith

acquire-held :
    (now k : ℕ) (l : Lease) → leb now l.expires_at ≡ true → (acquire now k (some l)).1 ≡ false
unfolding acquire
acquire-held now k l h = ground arith

Begun-held :
    (now : ℕ) (seen : Run) (b : Board) (l : Lease) (result : Board × Bool)
    → b.lease ≡ some l
    → leb now l.expires_at ≡ true
    → Begun now seen b result
    → (result.1 ≡ false) × (result.0.lease ≡ some l)
Begun-held now seen b l _ e h ended = (refl, e)
Begun-held now seen b l _ e h (waits r) = (refl, e)
Begun-held now seen b l _ e h skips = (refl, e)
Begun-held now seen b l _ e h (claims q f got) =
    absurd (false≢true (sym (acquire-held now seen.id l h) ∙ rw e at got))

start_job-held :
    (now : ℕ) (seen : Run) (b : Board) (l : Lease)
    → b.lease ≡ some l
    → leb now l.expires_at ≡ true
    → ((start_job now seen b).1 ≡ false) × ((start_job now seen b).0.lease ≡ some l)
unfolding start_job
start_job-held now seen b l e h = elim (Bool-cases (is_queued seen.status)) [
  | inr n ↦ rw n (refl, e)
  | inl q ↦ rw (q, e, acquire-held now seen.id l h) (refl, refl)
]

held_act :
    (l : Lease) (x : Action) (b : Board)
    → b.lease ≡ some l
    → under l x ≡ true
    → (starts x b ≡ false) × ((act x b).lease ≡ some l)
unfolding claim_due finish_run create_run cancel_queued finish_job
held_act l (claims_due now true db at fresh) b e h = (refl, e)
held_act l (claims_due now false db at fresh) b e h = (refl, e)
held_act l (begins now seen) b e h = Begun-held now seen b l _ e h (begin_run-Begun now seen b)
held_act l (finishes now k outcome) b e h = (refl, rw e (release-other k l h))
held_act l (cancels now k) b e h = (refl, ground arith)
held_act l (creates now k job) b e h = (refl, e)
held_act l (starts_job now seen) b e h = start_job-held now seen b l e h
held_act l (finishes_job now k w) b e h = (refl, rw e (release-other k l h))

-- While a run holds the writer's lease, no import starts and the lease stays, whatever the sequence
-- of operations, as long as no start is later than the end of the lease and the run that holds it
-- does not end.
pub one_writer :
    (l : Lease) (acts : List Action) (b : Board)
    → b.lease ≡ some l
    → all_under l acts ≡ true
    → (starts_any acts b ≡ false) × ((act_all acts b).lease ≡ some l)
one_writer l [] b e h = (refl, e)
one_writer l (x ∷ xs) b e h =
    let (s, e') = held_act l x b e (ground arith) in
    let (r, f) = one_writer l xs (act x b) e' (ground arith) in (rw (s, r) refl, f)

earliest_ahead-none :
    (run : Run) (runs : List Run)
    → earliest_ahead run runs ≡ none
    → any_of (is_ahead run) runs ≡ false
unfolding earliest_ahead
earliest_ahead-none run [] h = refl
earliest_ahead-none run (q ∷ qs) h = ground (arith, earliest_ahead-none run qs)

-- What holds when a run starts its import.
pub record Started (now : ℕ) (seen : Run) (b after : Board) : Type 0 where
  pub was_queued : stored_queued seen.id b.runs ≡ true
  pub lease : after.lease ≡ some (record { owner = seen.id; expires_at = now + 360 })
  pub first : is_scheduled seen.job ≡ true → any_of (is_ahead seen) b.runs ≡ false

acquire-lease :
    (now k : ℕ) (o : Option Lease)
    → (acquire now k o).1 ≡ true
    → (acquire now k o).0 ≡ some (record { owner = k; expires_at = now + 360 })
unfolding acquire
acquire-lease now k o h = ground arith

claim_run-stored :
    (now k : ℕ) (lease : Option Lease) (b : Board)
    → (claim_run now k lease b).1 ≡ true
    → (stored_queued k b.runs ≡ true) × ((claim_run now k lease b).0.lease ≡ lease)
unfolding claim_run
claim_run-stored now k lease b h = elim (Bool-cases (stored_queued k b.runs)) [
  | inl q ↦ (q, rw q refl)
  | inr n ↦ absurd (false≢true (rw n at h))
]

claim_run-lease :
    (now k : ℕ) (b : Board)
    → (acquire now k b.lease).1 ≡ true
    → (claim_run now k (acquire now k b.lease).0 b).1 ≡ true
    → (stored_queued k b.runs ≡ true)
      × ((claim_run now k (acquire now k b.lease).0 b).0.lease
          ≡ some (record { owner = k; expires_at = now + 360 }))
claim_run-lease now k b got h =
    let (q, e) = claim_run-stored now k (acquire now k b.lease).0 b h in
    (q, e ∙ acquire-lease now k b.lease got)

Begun-Started :
    (now : ℕ) (seen : Run) (b : Board) (result : Board × Bool)
    → Begun now seen b result
    → result.1 ≡ true
    → Started now seen b result.0
Begun-Started now seen b _ ended h = absurd (false≢true h)
Begun-Started now seen b _ (waits e) h = absurd (false≢true h)
Begun-Started now seen b _ skips h = absurd (false≢true h)
Begun-Started now seen b _ (claims q f got) h =
    let (s, l) = claim_run-lease now seen.id b got h in
    record { was_queued = s; lease = l; first = λ j. earliest_ahead-none seen b.runs (rw j at f) }

-- A run starts its import only if it is still queued in the database, with a lease of six minutes for
-- itself, and, if it is a scheduled one, when no scheduled run that was created before it is queued.
pub begin_run_in_order :
    (now : ℕ) (seen : Run) (b : Board)
    → (begin_run now seen b).1 ≡ true
    → Started now seen b (begin_run now seen b).0
begin_run_in_order now seen b h = Begun-Started now seen b _ (begin_run-Begun now seen b) h
