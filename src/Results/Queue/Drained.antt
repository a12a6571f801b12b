-- ===== src/Results/Queue/Drained.antt =====
-- What the second half of `sync` in apps/worker/results.py leaves of the filings that wait.
use meraipo.Prelude.{
  ℕ, any_of, take, ◌≡◌, Bool, true, false, not, ◌&&◌, ◌||◌, Option, none, some, List, [], ◌∷◌,
  first_where,
}
use meraipo.Results.Store.{Filing, has_id}
use meraipo.Results.Store.Versions.{IsVersioned}
use meraipo.Results.Process.{Link, is_awaiting}
use meraipo.Results.Queue.{is_later, Queue}

-- Whether the filing of a number is awaiting.
abbrev awaits : Option Filing → Bool
awaits none = false
awaits (some f) = is_awaiting f.status

abbrev pub is_awaiting_at : ℕ → List Filing → Bool
is_awaiting_at k fs = awaits (first_where (has_id k) fs)

-- No two filings have one number.
abbrev pub are_distinct : List Filing → Bool
are_distinct [] = true
are_distinct (f ∷ fs) = let rest = are_distinct fs in not (any_of (has_id f.id) fs) && rest

module _ (restricted : ℕ → Bool) (now : ℕ) (links : ℕ → List Link) where
  -- The results are versioned, and the filing of a number is not awaiting.
  abbrev Settled : ℕ → Queue → Type 0
  Settled k q = IsVersioned q.results × (is_awaiting_at k q.filings ≡ false)

  -- Whether a filing is to be tried later, or is not awaiting in a table.
  abbrev pub is_handled : List Filing → Filing → Bool
  is_handled filings f = is_later now f.retry_at || not (is_awaiting_at f.id filings)

  -- The filings that a run gets through: all, or those before the one at which its time runs out.
  abbrev pub reached : Option (ℕ × ℕ) → List Filing → List Filing
  reached none fs = fs
  reached (some (n, m)) fs = take n fs
