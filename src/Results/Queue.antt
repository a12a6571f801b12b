-- ===== src/Results/Queue.antt =====
-- The second half of `sync` in apps/worker/results.py: the filings of an exchange that wait for their
-- attachments. The table is in the order of creation; what the links of a filing give is given by its
-- number, and so is where the 35 seconds that the code allows run out, if they do.
pub mod Drained
pub mod Numbers
use meraipo.Prelude.{
  ℕ, zero, suc, ◌+◌, Bool, true, false, ◌&&◌, ◌||◌, Option, none, some, List, [], ◌∷◌, ltb, ◌==◌,
  if◌then◌else◌, is_some, take, rows_where, update_first,
}
use meraipo.Schedule.Slots.{Exchange}
use meraipo.Results.Store.{
  Result, Filing, FilingStatus, awaiting_processing, download_retry, parsing_review_required,
  same_exchange, has_id,
}
use meraipo.Results.Process.{Link, Work, start_work, process_links, process}

abbrev pub is_open : FilingStatus → Bool
is_open awaiting_processing = true
is_open download_retry = true
is_open _ = false

abbrev pub is_pending : Exchange → Filing → Bool
is_pending exchange f = same_exchange f.exchange exchange && (is_some f.company && is_open f.status)

-- The fifteen oldest filings, whether their time to retry has come or not.
abbrev pub picked : Exchange → List Filing → List Filing
picked exchange filings = take 15 (rows_where (is_pending exchange) filings)

abbrev pub is_later : ℕ → Option ℕ → Bool
is_later now none = false
is_later now (some t) = ltb now t

abbrev pub needs_review : FilingStatus → Bool
needs_review download_retry = true
needs_review parsing_review_required = true
needs_review _ = false

-- The tables and the counts of the run.
pub record Queue : Type 0 where
  pub filings : List Filing
  pub results : List Result
  pub published : ℕ
  pub failed : ℕ
  pub review_required : ℕ

-- The failures that a filing adds: one at least, where it needs a review.
abbrev pub failures : Work → ℕ
failures w =
    if needs_review w.filing.status then if w.failed == 0 then 1 else w.failed else w.failed

abbrev pub store_work : Filing → Work → Queue → Queue
store_work f w q = record {
  filings = update_first (has_id f.id) (λ _. w.filing) q.filings;
  results = w.results;
  published = q.published + w.published;
  failed = q.failed + failures w;
  review_required = q.review_required + (if needs_review w.filing.status then 1 else 0);
}

abbrev pub store_cut : Filing → Work → Queue → Queue
store_cut f w q = record q {
  filings = update_first (has_id f.id) (λ _. w.filing) q.filings;
  results = w.results;
  published = q.published + w.published;
  failed = q.failed + w.failed + 1;
}

module _ (restricted : ℕ → Bool) (now : ℕ) (links : ℕ → List Link) where
  abbrev pub process_filing : Filing → Queue → Queue
  process_filing f q =
      if is_later now f.retry_at
      then q
      else store_work f (process restricted q.filings now f (links f.id) q.results) q

  abbrev pub process_filings : List Filing → Queue → Queue
  process_filings [] q = q
  process_filings (f ∷ fs) q = process_filings fs (process_filing f q)

  -- What `process` has done of a filing when it is cancelled after a number of links. The link at which
  -- that happens adds nothing, as its publication is rolled back. Without links `process` waits for
  -- nothing and ends.
  abbrev pub cut_work : ℕ → Filing → List Link → Queue → Work
  cut_work m f [] q = process restricted q.filings now f [] q.results
  cut_work m f (l ∷ ls) q =
      process_links restricted q.filings now (take m (l ∷ ls))
        (start_work (record f { attempts = f.attempts + 1 }) q.results)

  -- `except TimeoutError`: one more failure; the filing that was cut short is as it was left.
  abbrev pub interrupt : ℕ → Filing → Queue → Queue
  interrupt m f q =
      if is_later now f.retry_at
      then record q { failed = q.failed + 1 }
      else store_cut f (cut_work m f (links f.id) q) q

  -- The loop where the time runs out at a link of the filing after a number of filings.
  abbrev pub process_cut : ℕ → ℕ → List Filing → Queue → Queue
  process_cut n m [] q = record q { failed = q.failed + 1 }
  process_cut zero m (f ∷ fs) q = interrupt m f q
  process_cut (suc n) m (f ∷ fs) q = process_cut n m fs (process_filing f q)

  abbrev pub process_within : Option (ℕ × ℕ) → List Filing → Queue → Queue
  process_within none fs q = process_filings fs q
  process_within (some (n, m)) fs q = process_cut n m fs q

  unfoldable pub process_pending : Option (ℕ × ℕ) → Exchange → Queue → Queue
  process_pending cut exchange q = process_within cut (picked exchange q.filings) q
