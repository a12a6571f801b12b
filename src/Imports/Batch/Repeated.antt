-- ===== src/Imports/Batch/Repeated.antt =====
-- `ingest` of apps/worker/ingestion.py with a key that was used before.
use mathlib.Core.Bool.{false≢true}
use mathlib.Core.Option.{some-injective}
use meraipo.Prelude.{
  ℕ, ◌≡◌, ◌∙◌, ap, refl, inl, inr, true, Option, none, some, List, [], ◌∷◌, ◌==◌, if◌then◌else◌,
  any_of, first_where, update_first, Bool-cases, arith,
}
use meraipo.Imports.Quarters.{Company, QuarterInput, Outcome, raised, returned, Added, add_quarter}
use meraipo.Imports.Prices.{Price}
use meraipo.Imports.Batch.{
  Base, Record, ipo_input, result, gmp, price, document, Progress, Ingested, ImportRun, RunStatus,
  PriceInput, ◌>>=◌, company_of, add_gmp, prior_result, is_other_key, take_result, import_result,
  differs, import_price_over, import_price, is_price_at, import_record, ingest_over, ingest,
  is_finished, has_run_key, import_records, start_run, close_run, final_status, close_batch,
  run_batch,
}
use meraipo.Imports.Batch.Kept.{
  base_after, after_records, import_ipo-keeps, add_gmp-SameFinance, gmp_after,
  import_document-SameFinance,
}

module _ (rs : List ImportRun) where
  result-runs :
      (p : Progress) (a : Outcome Added)
      → p.base.runs ≡ rs
      → (base_after p.base (a >>= take_result p)).runs ≡ rs
  result-runs p (raised e) h = h
  result-runs p (returned a) h = h

  import_result-runs :
      (p : Progress) (slug : ℕ) (d : QuarterInput) (o : Option Company)
      → p.base.runs ≡ rs
      → (base_after p.base (import_result p slug d o)).runs ≡ rs
  unfolding import_result
  import_result-runs p slug d none h = result-runs p (add_quarter p.base.ledger slug d) h
  import_result-runs p slug d (some c) h =
      elim (Bool-cases (is_other_key d (prior_result p.base.ledger c d))) [
        | inl y ↦ rw (import_result, y) h
        | inr m ↦ rw (import_result, m) (result-runs p (add_quarter p.base.ledger slug d) h)
      ]

  price_runs :
      (p : Progress) (c : Company) (d : PriceInput) (o : Option Price)
      → p.base.runs ≡ rs
      → (base_after p.base (import_price_over p c d o)).runs ≡ rs
  price_runs p c d none h = h
  price_runs p c d (some q) h = elim (Bool-cases (differs q d)) [ inl y ↦ rw y h | inr m ↦ rw m h ]

  price-runs :
      (p : Progress) (d : PriceInput) (o : Option Company)
      → p.base.runs ≡ rs
      → (base_after p.base (import_price p d o)).runs ≡ rs
  unfolding import_price
  price-runs p d none h = h
  price-runs p d (some c) h =
      price_runs p c d (first_where (is_price_at c.id d.price_date) p.base.prices) h

  import_record-runs :
      (p : Progress) (r : Record)
      → p.base.runs ≡ rs
      → (base_after p.base (import_record p r)).runs ≡ rs
  unfolding import_record
  import_record-runs p (ipo_input slug c i d) h =
      import_ipo-keeps (λ b. b.runs ≡ rs) (λ b r x. x) (λ b y x. x) p c i d (company_of p.base slug)
        h
  import_record-runs p (result slug d) h = import_result-runs p slug d (company_of p.base slug) h
  import_record-runs p (gmp slug d) h =
      ap (λ b. b.runs) (gmp_after p (add_gmp p.base slug d))
      ∙ (add_gmp-SameFinance p.base slug d).3
      ∙ h
  import_record-runs p (price slug d) h = price-runs p d (company_of p.base slug) h
  import_record-runs p (document slug kind url) h =
      (import_document-SameFinance p kind url (company_of p.base slug)).3 ∙ h

start_run-has : (key : ℕ) (rs : List ImportRun) → any_of (has_run_key key) (start_run key rs) ≡ true
start_run-has key [] = ground arith
start_run-has key (r ∷ rs) = ground (arith, start_run-has key rs)

abbrev run_status : Option ImportRun → Option RunStatus
run_status none = none
run_status (some r) = some r.status

-- The status of the run of a key.
abbrev status_of : ℕ → List ImportRun → Option RunStatus
status_of key rs = run_status (first_where (has_run_key key) rs)

closed_status :
    (key n : ℕ) (s : RunStatus) (rs : List ImportRun)
    → any_of (has_run_key key) rs ≡ true
    → status_of key (
        update_first
          (has_run_key key)
          (λ r. record r { status = s; conflicts = if n == 0 then none else some n })
          rs)
      ≡ some s
closed_status key n s [] h = absurd (false≢true h)
closed_status key n s (r ∷ rs) h = ground (arith, closed_status key n s rs)

final-finished : (n : ℕ) (rs : List Record) → is_finished (final_status n rs) ≡ true
final-finished n [] = ground arith
final-finished n (r ∷ rs) = ground arith

-- A call of `ingest` after one that returned, and what it is to give.
abbrev pub called_twice : List Record → ℕ → Outcome Ingested → Outcome Ingested
called_twice rs key (raised e) = raised e
called_twice rs key (returned i) = ingest i.base rs key

abbrev pub found : Outcome Ingested → Outcome Ingested
found (raised e) = raised e
found (returned i) = returned (record i { duplicate = true })

over_again :
    (b : Base) (rs : List Record) (key : ℕ) (s : RunStatus) (o : Option ImportRun)
    → run_status o ≡ some s
    → is_finished s ≡ true
    → ingest_over b rs key o ≡ returned (record { base = b; status = s; duplicate = true })
over_again b rs key s none h f = absurd (ground arith)
over_again b rs key s (some r) h f =
    let e : r.status ≡ s = some-injective r.status s h in rw (e, f) refl

repeated :
    (b : Base) (rs : List Record) (key : ℕ) (s : RunStatus)
    → status_of key b.runs ≡ some s
    → is_finished s ≡ true
    → ingest b rs key ≡ returned (record { base = b; status = s; duplicate = true })
unfolding ingest
repeated b rs key s h f = over_again b rs key s (first_where (has_run_key key) b.runs) h f

closed_again :
    (rs rs' : List Record) (key : ℕ) (b : Base) (a : Outcome Progress)
    → any_of (has_run_key key) (base_after b a).runs ≡ true
    → called_twice rs' key (a >>= close_batch rs key) ≡ found (a >>= close_batch rs key)
closed_again rs rs' key b (raised e) h = refl
closed_again rs rs' key b (returned p) h =
    repeated (close_run key (final_status p.conflicts rs) p.conflicts p.base) rs' key
      (final_status p.conflicts rs)
      (closed_status key p.conflicts (final_status p.conflicts rs) p.base.runs h)
      (final-finished p.conflicts rs)

run_again :
    (b : Base) (rs rs' : List Record) (key : ℕ)
    → called_twice rs' key (run_batch b rs key) ≡ found (run_batch b rs key)
run_again b rs rs' key =
    let start : Progress = record {
      base = record b { runs = start_run key b.runs };
      conflicts = 0;
    } in
    let same : (base_after start.base (import_records start rs)).runs ≡ start_run key b.runs =
      after_records (λ x. x.runs ≡ start_run key b.runs) (import_record-runs (start_run key b.runs))
        start rs refl in
    closed_again rs rs' key start.base (import_records start rs)
      (ap (any_of (has_run_key key)) same ∙ start_run-has key b.runs)

over_found :
    (b : Base) (rs rs' : List Record) (key : ℕ) (o : Option ImportRun)
    → first_where (has_run_key key) b.runs ≡ o
    → called_twice rs' key (ingest_over b rs key o) ≡ found (ingest_over b rs key o)
over_found b rs rs' key none e = run_again b rs rs' key
over_found b rs rs' key (some r) e = elim (Bool-cases (is_finished r.status)) [
  | inr n ↦ rw n (run_again b rs rs' key)
  | inl y ↦ rw y (repeated b rs' key r.status (ap run_status e) y)
]

-- `ingest` called with the key of a call that returned, with whatever batch, gives the status of that
-- call, marked as a duplicate, and leaves every table as that call left it.
pub ingest_again :
    (b : Base) (rs rs' : List Record) (key : ℕ)
    → called_twice rs' key (ingest b rs key) ≡ found (ingest b rs key)
unfolding ingest
ingest_again b rs rs' key = over_found b rs rs' key (first_where (has_run_key key) b.runs) refl
