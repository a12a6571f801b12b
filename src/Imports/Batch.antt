-- ===== src/Imports/Batch.antt =====
-- `ingest` of apps/worker/ingestion.py, with `add_gmp` of apps/api/services.py: a batch of records of the
-- demonstration provider. Its records are valid ones; one of an IPO brings the numbers of the rows that
-- it may create. An error leaves the tables as they were, since the transaction is rolled back.
pub mod Kept
pub mod Referenced
pub mod Single
pub mod Repeated
use meraipo.Prelude.{
  ℕ, ◌+◌, Bool, true, false, not, ◌&&◌, ◌||◌, Option, none, some, List, [], ◌∷◌, ◌++◌, ltb, ◌==◌,
  if◌then◌else◌, opt_is, any_of, first_where, update_first,
}
use meraipo.Imports.Quarters.{
  Term, Company, Quarterly, QuarterInput, Ledger, Outcome, raised, returned, ImportError,
  company_not_found, key_of_other_company, key_reused, unknown_company, ipo_not_found, ipo_refused,
  Added, same_term, has_slug, is_of, latest_where, add_quarter,
}
use meraipo.Imports.Maintained
use meraipo.Imports.Maintained.{
  Ipo, IpoDate, Identifier, Baseline, Document, Register, IpoInput, refused, saved, is_ipo_of,
  maintain_ipo,
}
use meraipo.Imports.Prices.{Price, Snapshot, summarise}

-- A grey-market premium; its value is a number that the code only compares.
pub record Gmp : Type 0 where
  pub ipo : ℕ
  pub value : Option ℕ
  pub observed_at : ℕ
  pub source_url : ℕ
  pub import_key : ℕ

pub record GmpInput : Type 0 where
  pub value : Option ℕ
  pub observed_at : ℕ
  pub source_url : ℕ
  pub import_key : ℕ

pub record PriceInput : Type 0 where
  pub price_date : ℕ
  pub close : ℕ
  pub high : Option ℕ
  pub low : Option ℕ

pub data RunStatus : Type 0 where
  running succeeded skipped conflict failed : RunStatus

-- `conflicts` is the number in the run's error.
pub record ImportRun : Type 0 where
  pub key : ℕ
  pub status : RunStatus
  pub conflicts : Option ℕ

-- The tables; an issue is the company that it is about.
pub record Base : Type 0 where
  pub ledger : Ledger
  pub ipos : List Ipo
  pub dates : List IpoDate
  pub identifiers : List Identifier
  pub baselines : List Baseline
  pub gmps : List Gmp
  pub prices : List Price
  pub snapshots : List Snapshot
  pub documents : List Document
  pub issues : List ℕ
  pub runs : List ImportRun

pub data Record : Type 0 where
  ipo_input : ℕ → ℕ → ℕ → IpoInput → Record
  result : ℕ → QuarterInput → Record
  gmp : ℕ → GmpInput → Record
  price : ℕ → PriceInput → Record
  document : ℕ → ℕ → ℕ → Record

infixl 10 ◌>>=◌
abbrev pub ◌>>=◌ {ℓ κ} : {A : Type ℓ} {B : Type κ} → Outcome A → (A → Outcome B) → Outcome B
raised e >>= f = raised e
returned a >>= f = f a

abbrev pub company_of : Base → ℕ → Option Company
company_of b slug = first_where (has_slug slug) b.ledger.companies

abbrev pub has_gmp_key : ℕ → Gmp → Bool
has_gmp_key k g = g.import_key == k

abbrev pub same_value : Option ℕ → Option ℕ → Bool
same_value none none = true
same_value (some a) (some b) = a == b
same_value _ _ = false

abbrev pub same_gmp : Gmp → GmpInput → Bool
same_gmp g d =
    same_value g.value d.value && (g.observed_at == d.observed_at && g.source_url == d.source_url)

abbrev pub replay_gmp : Base → Ipo → GmpInput → Gmp → Outcome Base
replay_gmp b i d g =
    if not (g.ipo == i.id)
    then raised key_of_other_company
    else if not (same_gmp g d)
    then raised key_reused
    else returned b

abbrev pub add_gmp_over : Base → Ipo → GmpInput → Option Gmp → Outcome Base
add_gmp_over b i d (some g) = replay_gmp b i d g
add_gmp_over b i d none = returned (record b {
  gmps =
      b.gmps
      ++ record {
        ipo = i.id;
        value = d.value;
        observed_at = d.observed_at;
        source_url = d.source_url;
        import_key = d.import_key;
      }
        ∷ [];
})

abbrev pub add_gmp_to : Base → GmpInput → Option Ipo → Outcome Base
add_gmp_to b d none = raised ipo_not_found
add_gmp_to b d (some i) = add_gmp_over b i d (first_where (has_gmp_key d.import_key) b.gmps)

unfoldable pub add_gmp : Base → ℕ → GmpInput → Outcome Base
add_gmp b slug d = elim (company_of b slug) [
  | none ↦ raised ipo_not_found
  | some c ↦ add_gmp_to b d (first_where (is_ipo_of c.id) b.ipos)
]

-- A batch on its way: the tables and the conflicts so far.
pub record Progress : Type 0 where
  pub base : Base
  pub conflicts : ℕ

abbrev pub at : Progress → Base → Progress
at p b = record p { base = b }

abbrev pub take_base : Progress → Base → Outcome Progress
take_base p b = returned (at p b)

abbrev pub conflict_on : Progress → ℕ → Progress
conflict_on p c = record {
  base = record p.base { issues = p.base.issues ++ c ∷ [] };
  conflicts = p.conflicts + 1;
}

-- The tables that `maintain_ipo` reads and writes.
abbrev pub register_of : Base → Register
register_of b = record {
  companies = b.ledger.companies;
  ipos = b.ipos;
  dates = b.dates;
  identifiers = b.identifiers;
  baselines = b.baselines;
  documents = b.documents;
}

abbrev pub with_register : Register → Base → Base
with_register r b = record b {
  ledger = record b.ledger { companies = r.companies };
  ipos = r.ipos;
  dates = r.dates;
  identifiers = r.identifiers;
  baselines = r.baselines;
  documents = r.documents;
}

abbrev pub take_register : Progress → Maintained.Outcome → Outcome Progress
take_register p (refused e) = raised ipo_refused
take_register p (saved r) = returned (at p (with_register r p.base))

-- A company that there is keeps its IPO; other terms of the offer are a conflict.
abbrev pub compare_ipo : Progress → ℕ → IpoInput → Option Ipo → Progress
compare_ipo p c d none = p
compare_ipo p c d (some i) = if i.offer == d.offer then p else conflict_on p c

unfoldable pub import_ipo : Progress → ℕ → ℕ → IpoInput → Option Company → Outcome Progress
import_ipo p new_company new_ipo d none =
    take_register p (maintain_ipo new_company new_ipo none d (register_of p.base))
import_ipo p new_company new_ipo d (some c) =
    returned (compare_ipo p c.id d (first_where (is_ipo_of c.id) p.base.ipos))

-- The latest result of the period, where there is such a period.
abbrev pub prior_result : Ledger → Company → QuarterInput → Option Quarterly
prior_result l c d =
    if any_of (same_term d.term) l.terms then latest_where (is_of c.id d.term) l.quarters else none

abbrev pub is_other_key : QuarterInput → Option Quarterly → Bool
is_other_key d none = false
is_other_key d (some q) = not (q.import_key == d.import_key)

abbrev pub take_result : Progress → Added → Outcome Progress
take_result p a = returned (at p (record p.base { ledger = a.ledger }))

abbrev pub add_result : Progress → ℕ → QuarterInput → Outcome Progress
add_result p slug d = add_quarter p.base.ledger slug d >>= take_result p

unfoldable pub import_result : Progress → ℕ → QuarterInput → Option Company → Outcome Progress
import_result p slug d none = add_result p slug d
import_result p slug d (some c) =
    if is_other_key d (prior_result p.base.ledger c d)
    then returned (conflict_on p c.id)
    else add_result p slug d

abbrev pub is_price_at : ℕ → ℕ → Price → Bool
is_price_at c date p = p.company == c && p.date == date

abbrev pub differs : Price → PriceInput → Bool
differs p d =
    not (p.close == d.close) || (not (same_value p.high d.high) || not (same_value p.low d.low))

abbrev pub price_of : ℕ → PriceInput → Price
price_of c d = record {
  company = c;
  date = d.price_date;
  close = d.close;
  high = d.high;
  low = d.low;
}

abbrev pub add_price : Base → Price → Base
add_price b p = record b {
  prices = b.prices ++ p ∷ [];
  snapshots = summarise p.company (b.prices ++ p ∷ []) b.snapshots;
}

abbrev pub import_price_over : Progress → Company → PriceInput → Option Price → Outcome Progress
import_price_over p c d none = returned (at p (add_price p.base (price_of c.id d)))
import_price_over p c d (some q) = if differs q d then returned (conflict_on p c.id) else returned p

unfoldable pub import_price : Progress → PriceInput → Option Company → Outcome Progress
import_price p d none = raised unknown_company
import_price p d (some c) =
    import_price_over p c d (first_where (is_price_at c.id d.price_date) p.base.prices)

abbrev pub is_document : Document → Document → Bool
is_document x y = (x.ipo == y.ipo && x.kind == y.kind) && x.url == y.url

abbrev pub add_document : Progress → Document → Progress
add_document p x =
    if any_of (is_document x) p.base.documents
    then p
    else at p (record p.base { documents = p.base.documents ++ x ∷ [] })

unfoldable pub import_document : Progress → ℕ → ℕ → Option Company → Outcome Progress
import_document p kind url none = raised unknown_company
import_document p kind url (some c) = elim (first_where (is_ipo_of c.id) p.base.ipos) [
  | none ↦ raised ipo_not_found
  | some i ↦ returned (add_document p (record { ipo = i.id; kind = kind; url = url }))
]

unfoldable pub import_record : Progress → Record → Outcome Progress
import_record p (ipo_input slug new_company new_ipo d) =
    import_ipo p new_company new_ipo d (company_of p.base slug)
import_record p (result slug d) = import_result p slug d (company_of p.base slug)
import_record p (gmp slug d) = add_gmp p.base slug d >>= take_base p
import_record p (price slug d) = import_price p d (company_of p.base slug)
import_record p (document slug kind url) = import_document p kind url (company_of p.base slug)

unfoldable pub import_records : Progress → List Record → Outcome Progress
import_records p [] = returned p
import_records p (r ∷ rs) = import_record p r >>= (λ q. import_records q rs)

abbrev pub has_run_key : ℕ → ImportRun → Bool
has_run_key k r = r.key == k

abbrev pub is_finished : RunStatus → Bool
is_finished succeeded = true
is_finished skipped = true
is_finished conflict = true
is_finished _ = false

abbrev pub start_run : ℕ → List ImportRun → List ImportRun
start_run key rs =
    if any_of (has_run_key key) rs
    then update_first (has_run_key key) (λ r. record r { status = running }) rs
    else rs ++ record { key = key; status = running; conflicts = none } ∷ []

abbrev pub final_status : ℕ → List Record → RunStatus
final_status n rs = if not (n == 0) then conflict else elim rs [ [] ↦ skipped | _ ↦ succeeded ]

abbrev pub close_run : ℕ → RunStatus → ℕ → Base → Base
close_run key status n b = record b {
  runs =
      update_first (has_run_key key)
        (λ r. record r { status = status; conflicts = if n == 0 then none else some n }) b.runs;
}

-- What `ingest` returns, with the tables.
pub record Ingested : Type 0 where
  pub base : Base
  pub status : RunStatus
  pub duplicate : Bool

abbrev pub close_batch : List Record → ℕ → Progress → Outcome Ingested
close_batch rs key p = returned (record {
  base = close_run key (final_status p.conflicts rs) p.conflicts p.base;
  status = final_status p.conflicts rs;
  duplicate = false;
})

abbrev pub run_batch : Base → List Record → ℕ → Outcome Ingested
run_batch b rs key =
    import_records (record { base = record b { runs = start_run key b.runs }; conflicts = 0 }) rs
    >>= close_batch rs key

abbrev pub ingest_over : Base → List Record → ℕ → Option ImportRun → Outcome Ingested
ingest_over b rs key none = run_batch b rs key
ingest_over b rs key (some r) =
    if is_finished r.status
    then returned (record { base = b; status = r.status; duplicate = true })
    else run_batch b rs key

unfoldable pub ingest : Base → List Record → ℕ → Outcome Ingested
ingest b rs key = ingest_over b rs key (first_where (has_run_key key) b.runs)
