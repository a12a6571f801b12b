-- ===== src/Imports/Batch/Kept.antt =====
-- What `ingest` of apps/worker/ingestion.py keeps.
use mathlib.Core.Path.{subst}
use meraipo.Prelude.{
  ℕ, ◌≡◌, refl, sym, inl, inr, Option, none, some, List, [], ◌∷◌, ◌==◌, any_of, first_where,
  Option-cases, Bool-cases,
}
use meraipo.Imports.Quarters.{Company, QuarterInput, Outcome, raised, returned, Added, add_quarter}
use meraipo.Imports.Quarters.Numbered.{IsNumbered, quarters_of, add_quarter-IsNumbered}
use meraipo.Imports.Prices.{Price}
use meraipo.Imports.Prices.Summary.{IsSummed, summarise-IsSummed}
use meraipo.Imports.Maintained
use meraipo.Imports.Maintained.{
  Ipo, Document, Register, IpoInput, refused, saved, is_ipo_of, maintain_ipo,
}
use meraipo.Imports.Batch.{
  ipo_input, with_register, register_of, take_register, compare_ipo, import_ipo, Base, Gmp,
  has_gmp_key, same_gmp, replay_gmp, add_gmp_to, add_gmp_over, take_base, is_price_at, is_document,
  add_document, Record, result, gmp, price, document, Progress, Ingested, ImportRun, GmpInput,
  PriceInput, ◌>>=◌, company_of, add_gmp, prior_result, is_other_key, take_result, close_batch,
  import_result, differs, price_of, import_price_over, import_price, import_document, import_record,
  import_records, run_batch, ingest_over, ingest, is_finished, has_run_key, start_run,
}

-- What a call leaves: what it returns, or what there was.
abbrev pub base_after : Base → Outcome Progress → Base
base_after b (raised e) = b
base_after b (returned p) = p.base

abbrev pub tables_after : Base → Outcome Ingested → Base
tables_after b (raised e) = b
tables_after b (returned i) = i.base

-- A property of the tables that every record of a batch keeps is kept by the batch.
module _ (P : Base → Type 0)
    (keeps : (p : Progress) (r : Record)
      → P p.base
      → P (base_after p.base (import_record p r))) where
  rebase : (b c : Base) (a : Outcome Progress) → P b → P (base_after c a) → P (base_after b a)
  rebase b c (raised e) h k = h
  rebase b c (returned q) h k = k

  after_bind :
      (b : Base) (a : Outcome Progress) (f : Progress → Outcome Progress)
      → P b
      → P (base_after b a)
      → ((q : Progress) → P q.base → P (base_after q.base (f q)))
      → P (base_after b (a >>= f))
  after_bind b (raised e) f h k g = h
  after_bind b (returned q) f h k g = rebase b q.base (f q) h (g q k)

  pub after_records :
      (p : Progress) (rs : List Record) → P p.base → P (base_after p.base (import_records p rs))
  unfolding import_records
  after_records p [] h = h
  after_records p (r ∷ rs) h =
      after_bind p.base (import_record p r) (λ q. import_records q rs) h (keeps p r h)
        (λ q k. after_records q rs k)

  -- The rows of the runs are no part of the property.
  module _ (silent : (b : Base) (rs : List ImportRun) → P b → P (record b { runs = rs })) where
    after_close :
        (b c : Base) (rs : List Record) (key : ℕ) (a : Outcome Progress)
        → P b
        → P (base_after c a)
        → P (tables_after b (a >>= close_batch rs key))
    after_close b c rs key (raised e) h k = h
    after_close b c rs key (returned q) h k = silent q.base _ k

    after_run :
        (b : Base) (rs : List Record) (key : ℕ) → P b → P (tables_after b (run_batch b rs key))
    after_run b rs key h =
        let p : Progress = record {
          base = record b { runs = start_run key b.runs };
          conflicts = 0;
        } in
        after_close b p.base rs key (import_records p rs) h (after_records p rs (silent b _ h))

    after_over :
        (b : Base) (rs : List Record) (key : ℕ) (o : Option ImportRun)
        → P b
        → P (tables_after b (ingest_over b rs key o))
    after_over b rs key none h = after_run b rs key h
    after_over b rs key (some r) h = elim (Bool-cases (is_finished r.status)) [
      | inl y ↦ rw y h
      | inr n ↦ rw n (after_run b rs key h)
    ]

    pub after_ingest :
        (b : Base) (rs : List Record) (key : ℕ) → P b → P (tables_after b (ingest b rs key))
    unfolding ingest
    after_ingest b rs key h = after_over b rs key (first_where (has_run_key key) b.runs) h

-- What a record of an IPO writes: the tables of `maintain_ipo`, or a conflict.
module _ (P : Base → Type 0) (keeps : (b : Base) (r : Register) → P b → P (with_register r b))
    (reports : (b : Base) (c : List ℕ) → P b → P (record b { issues = c })) where
  take_register-keeps :
      (p : Progress) (a : Maintained.Outcome) → P p.base → P (base_after p.base (take_register p a))
  take_register-keeps p (refused e) h = h
  take_register-keeps p (saved r) h = keeps p.base r h

  compare_ipo-keeps :
      (p : Progress) (c : ℕ) (d : IpoInput) (o : Option Ipo)
      → P p.base
      → P (compare_ipo p c d o).base
  compare_ipo-keeps p c d none h = h
  compare_ipo-keeps p c d (some i) h = elim (Bool-cases (i.offer == d.offer)) [
    | inl y ↦ rw y h
    | inr n ↦ rw n (reports p.base _ h)
  ]

  pub import_ipo-keeps :
      (p : Progress) (new_company new_ipo : ℕ) (d : IpoInput) (o : Option Company)
      → P p.base
      → P (base_after p.base (import_ipo p new_company new_ipo d o))
  unfolding import_ipo
  import_ipo-keeps p new_company new_ipo d none h =
      take_register-keeps p (maintain_ipo new_company new_ipo none d (register_of p.base)) h
  import_ipo-keeps p new_company new_ipo d (some c) h =
      compare_ipo-keeps p c.id d (first_where (is_ipo_of c.id) p.base.ipos) h

-- The results are numbered and the prices summed up.
abbrev pub IsSound : Base → Type 0
IsSound b = IsNumbered b.ledger.quarters × IsSummed b.prices b.snapshots

result-IsSound :
    (p : Progress) (slug : ℕ) (d : QuarterInput) (a : Outcome Added)
    → IsNumbered (quarters_of p.base.ledger a)
    → IsSound p.base
    → IsSound (base_after p.base (a >>= take_result p))
result-IsSound p slug d (raised e) n h = h
result-IsSound p slug d (returned a) n h = (n, h.1)

import_result-IsSound :
    (p : Progress) (slug : ℕ) (d : QuarterInput) (o : Option Company)
    → IsSound p.base
    → IsSound (base_after p.base (import_result p slug d o))
unfolding import_result
import_result-IsSound p slug d none h =
    result-IsSound p slug d (add_quarter p.base.ledger slug d)
      (add_quarter-IsNumbered p.base.ledger slug d h.0) h
import_result-IsSound p slug d (some c) h =
    elim (Bool-cases (is_other_key d (prior_result p.base.ledger c d))) [
      | inl y ↦ rw (import_result, y) h
      | inr n ↦
          rw (import_result, n)
            (result-IsSound p slug d (add_quarter p.base.ledger slug d)
              (add_quarter-IsNumbered p.base.ledger slug d h.0) h)
    ]

import_price-IsSound :
    (p : Progress) (c : Company) (d : PriceInput) (o : Option Price)
    → IsSound p.base
    → IsSound (base_after p.base (import_price_over p c d o))
import_price-IsSound p c d none h =
    (h.0, summarise-IsSummed (price_of c.id d) p.base.prices p.base.snapshots h.1)
import_price-IsSound p c d (some q) h = elim (Bool-cases (differs q d)) [
  | inl y ↦ rw y h
  | inr n ↦ rw n h
]

-- What the records of the other kinds leave alone.
abbrev pub SameFinance : Base → Base → Type 0
SameFinance b c =
    (b.ledger ≡ c.ledger) × (b.prices ≡ c.prices) × (b.snapshots ≡ c.snapshots) × (b.runs ≡ c.runs)

abbrev pub gmp_base : Base → Outcome Base → Base
gmp_base b (raised e) = b
gmp_base b (returned c) = c

replay_gmp-SameFinance :
    (b : Base) (i : Ipo) (d : GmpInput) (g : Gmp) → SameFinance (gmp_base b (replay_gmp b i d g)) b
replay_gmp-SameFinance b i d g = elim (Bool-cases (g.ipo == i.id)) [
  | inr n ↦ rw n (refl, refl, refl, refl)
  | inl y ↦ elim (Bool-cases (same_gmp g d)) [
    | inr n ↦ rw (y, n) (refl, refl, refl, refl)
    | inl s ↦ rw (y, s) (refl, refl, refl, refl)
  ]
]

add_gmp_over-SameFinance :
    (b : Base) (i : Ipo) (d : GmpInput) (o : Option Gmp)
    → SameFinance (gmp_base b (add_gmp_over b i d o)) b
add_gmp_over-SameFinance b i d none = (refl, refl, refl, refl)
add_gmp_over-SameFinance b i d (some g) = replay_gmp-SameFinance b i d g

add_gmp_to-SameFinance :
    (b : Base) (d : GmpInput) (o : Option Ipo) → SameFinance (gmp_base b (add_gmp_to b d o)) b
add_gmp_to-SameFinance b d none = (refl, refl, refl, refl)
add_gmp_to-SameFinance b d (some i) =
    add_gmp_over-SameFinance b i d (first_where (has_gmp_key d.import_key) b.gmps)

pub add_gmp-SameFinance :
    (b : Base) (slug : ℕ) (d : GmpInput) → SameFinance (gmp_base b (add_gmp b slug d)) b
unfolding add_gmp
add_gmp-SameFinance b slug d = elim (Option-cases (company_of b slug)) [
  | inl e ↦ rw (add_gmp, e) (refl, refl, refl, refl)
  | inr (c, e) ↦ rw (add_gmp, e) (add_gmp_to-SameFinance b d (first_where (is_ipo_of c.id) b.ipos))
]

pub gmp_after :
    (p : Progress) (a : Outcome Base) → base_after p.base (a >>= take_base p) ≡ gmp_base p.base a
gmp_after p (raised e) = refl
gmp_after p (returned b) = refl

add_document-SameFinance :
    (p : Progress) (x : Document) → SameFinance (add_document p x).base p.base
add_document-SameFinance p x = elim (Bool-cases (any_of (is_document x) p.base.documents)) [
  | inl y ↦ rw y (refl, refl, refl, refl)
  | inr n ↦ rw n (refl, refl, refl, refl)
]

pub import_document-SameFinance :
    (p : Progress) (kind url : ℕ) (o : Option Company)
    → SameFinance (base_after p.base (import_document p kind url o)) p.base
unfolding import_document
import_document-SameFinance p kind url none = (refl, refl, refl, refl)
import_document-SameFinance p kind url (some c) =
    elim (Option-cases (first_where (is_ipo_of c.id) p.base.ipos)) [
      | inl e ↦ rw (import_document, e) (refl, refl, refl, refl)
      | inr (i, e) ↦
          rw (import_document, e)
            (add_document-SameFinance p (record { ipo = i.id; kind = kind; url = url }))
    ]

price-IsSound :
    (p : Progress) (d : PriceInput) (o : Option Company)
    → IsSound p.base
    → IsSound (base_after p.base (import_price p d o))
unfolding import_price
price-IsSound p d none h = h
price-IsSound p d (some c) h =
    import_price-IsSound p c d (first_where (is_price_at c.id d.price_date) p.base.prices) h

same-IsSound : (b c : Base) → SameFinance b c → IsSound c → IsSound b
same-IsSound b c (l, p, s, r) (n, v) = (
  subst (λ x. IsNumbered x.quarters) (sym l) n,
  subst (λ x. IsSummed b.prices x) (sym s) (subst (λ x. IsSummed x c.snapshots) (sym p) v),
)

import_record-IsSound :
    (p : Progress) (r : Record) → IsSound p.base → IsSound (base_after p.base (import_record p r))
unfolding import_record import_price
import_record-IsSound p (ipo_input slug c i d) h =
    import_ipo-keeps IsSound (λ b r k. k) (λ b x k. k) p c i d (company_of p.base slug) h
import_record-IsSound p (result slug d) h =
    import_result-IsSound p slug d (company_of p.base slug) h
import_record-IsSound p (gmp slug d) h =
    same-IsSound (base_after p.base (add_gmp p.base slug d >>= take_base p)) p.base
      (subst (λ b. SameFinance b p.base) (sym (gmp_after p (add_gmp p.base slug d)))
        (add_gmp-SameFinance p.base slug d))
      h
import_record-IsSound p (price slug d) h = price-IsSound p d (company_of p.base slug) h
import_record-IsSound p (document slug kind url) h =
    same-IsSound (base_after p.base (import_document p kind url (company_of p.base slug))) p.base
      (import_document-SameFinance p kind url (company_of p.base slug)) h

-- Whatever a batch holds, records of IPOs, results, premiums, prices or documents, and whether `ingest` finishes it, finds it done before or raises, the
-- revisions of each company's term stay 1, 2, … up to their number, and the snapshot of every company
-- with prices keeps summing all of its prices up: the latest date with its close, and the highest and
-- the two of the last 365 days as bounds that are reached.
pub ingest-IsSound :
    (b : Base) (rs : List Record) (key : ℕ) → IsSound b → IsSound (tables_after b (ingest b rs key))
ingest-IsSound b rs key h = after_ingest IsSound import_record-IsSound (λ c runs k. k) b rs key h
