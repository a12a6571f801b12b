-- ===== src/Imports/Batch/Single.antt =====
-- The revisions that `ingest` of apps/worker/ingestion.py makes, and its repetition.
use mathlib.Core.Path.{subst}
use meraipo.Prelude.{
  ℕ, ◌≤◌, ◌≡◌, ◌∙◌, ap, refl, sym, inl, inr, Option, none, some, List, max, first_where,
  count_where, Bool-cases, arith,
}
use meraipo.Imports.Quarters.{
  Term, Company, QuarterInput, Ledger, Outcome, raised, returned, Added, add_quarter, is_of,
  has_slug, has_key, add_for, company_not_found,
}
use meraipo.Imports.Prices.{Price}
use meraipo.Imports.Batch.{
  Base, Record, ipo_input, result, gmp, price, document, Progress, PriceInput, GmpInput, ◌>>=◌,
  company_of, add_gmp, prior_result, is_other_key, take_result, take_base, import_result, differs,
  import_price_over, import_price, is_price_at, import_record, ingest,
}
use meraipo.Imports.Batch.Kept.{
  base_after, tables_after, after_ingest, import_ipo-keeps, add_gmp-SameFinance, gmp_after,
  import_document-SameFinance,
}
use meraipo.Imports.Batch.Referenced.{IsReferenced, Fits, ledger_after, add_for-Fits, prior-latest}

missing_company :
    (l : Ledger) (slug : ℕ) (d : QuarterInput)
    → first_where (has_slug slug) l.companies ≡ none
    → add_quarter l slug d ≡ raised company_not_found
unfolding add_quarter
missing_company l slug d e = rw (add_quarter, e) refl

known_company :
    (l : Ledger) (slug : ℕ) (d : QuarterInput) (c : Company)
    → first_where (has_slug slug) l.companies ≡ some c
    → add_quarter l slug d ≡ add_for l c d (first_where (has_key d.import_key) l.quarters)
unfolding add_quarter
known_company l slug d c e = rw (add_quarter, e) refl

module _ (k : ℕ) (t : Term) (n : ℕ) (positive : 1 ≤ n) where
  result-Fits :
      (p : Progress) (a : Outcome Added)
      → Fits k t n positive p.base.ledger
      → Fits k t n positive (ledger_after k t n positive p.base.ledger a)
      → Fits k t n positive (base_after p.base (a >>= take_result p)).ledger
  result-Fits p (raised e) h g = h
  result-Fits p (returned a) h g = g

  import_result-Fits :
      (p : Progress) (slug : ℕ) (d : QuarterInput) (o : Option Company)
      → company_of p.base slug ≡ o
      → Fits k t n positive p.base.ledger
      → Fits k t n positive (base_after p.base (import_result p slug d o)).ledger
  unfolding import_result
  import_result-Fits p slug d none e h = rw (missing_company p.base.ledger slug d e) h
  import_result-Fits p slug d (some c) e h =
      elim (Bool-cases (is_other_key d (prior_result p.base.ledger c d))) [
        | inl y ↦ rw (import_result, y) h
        | inr m ↦
            rw (import_result, m, known_company p.base.ledger slug d c e)
              (result-Fits p
                (add_for p.base.ledger c d
                  (first_where (has_key d.import_key) p.base.ledger.quarters))
                h
                (add_for-Fits k t n positive p.base.ledger c d
                  (first_where (has_key d.import_key) p.base.ledger.quarters) h refl
                  (ap (is_other_key d) (sym (prior-latest p.base.ledger c d h.0)) ∙ m)))
      ]

  price_ledger :
      (p : Progress) (c : Company) (d : PriceInput) (o : Option Price)
      → (base_after p.base (import_price_over p c d o)).ledger ≡ p.base.ledger
  price_ledger p c d none = refl
  price_ledger p c d (some q) = elim (Bool-cases (differs q d)) [
    | inl y ↦ rw y refl
    | inr m ↦ rw m refl
  ]

  price-ledger :
      (p : Progress) (d : PriceInput) (o : Option Company)
      → (base_after p.base (import_price p d o)).ledger ≡ p.base.ledger
  unfolding import_price
  price-ledger p d none = refl
  price-ledger p d (some c) =
      price_ledger p c d (first_where (is_price_at c.id d.price_date) p.base.prices)

  gmp-ledger :
      (p : Progress) (slug : ℕ) (d : GmpInput)
      → (base_after p.base (add_gmp p.base slug d >>= take_base p)).ledger ≡ p.base.ledger
  gmp-ledger p slug d =
      ap (λ b. b.ledger) (gmp_after p (add_gmp p.base slug d))
      ∙ (add_gmp-SameFinance p.base slug d).0

  import_record-Fits :
      (p : Progress) (r : Record)
      → Fits k t n positive p.base.ledger
      → Fits k t n positive (base_after p.base (import_record p r)).ledger
  unfolding import_record
  import_record-Fits p (ipo_input slug c i d) h =
      import_ipo-keeps (λ b. Fits k t n positive b.ledger) (λ b r x. x) (λ b y x. x) p c i d
        (company_of p.base slug) h
  import_record-Fits p (result slug d) h =
      import_result-Fits p slug d (company_of p.base slug) refl h
  import_record-Fits p (gmp slug d) h = subst (Fits k t n positive) (sym (gmp-ledger p slug d)) h
  import_record-Fits p (price slug d) h =
      subst (Fits k t n positive) (sym (price-ledger p d (company_of p.base slug))) h
  import_record-Fits p (document slug kind url) h =
      subst (Fits k t n positive)
        (sym (import_document-SameFinance p kind url (company_of p.base slug)).0) h

-- A batch never revises a result: where every result's term is in the table of terms, a company's term
-- has after `ingest`, finished or not, no more results than before, or one where it had none.
pub ingest_single :
    (b : Base) (rs : List Record) (key : ℕ) (k : ℕ) (t : Term)
    → IsReferenced b.ledger
    → count_where (is_of k t) (tables_after b (ingest b rs key)).ledger.quarters
      ≤ max 1 (count_where (is_of k t) b.ledger.quarters)
ingest_single b rs key k t r =
    let n = max 1 (count_where (is_of k t) b.ledger.quarters) in
    let positive : 1 ≤ n = ground arith in
    (after_ingest (λ x. Fits k t n positive x.ledger) (import_record-Fits k t n positive)
      (λ c runs h. h) b rs key (r, ground arith)).1
