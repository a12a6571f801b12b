-- ===== src/Imports/Tests.antt =====
-- A company with a verified result, its prices, and a batch that brings more.
use meraipo.Prelude.{◌≡◌, ◌≤◌, refl, true, none, some, List, [], ◌∷◌, count_where, arith, max}
use meraipo.Imports.Quarters.{
  Term, Quarterly, QuarterInput, Ledger, verified, unverified, add_quarter, is_of,
}
use meraipo.Imports.Quarters.Numbered.{IsNumbered, quarters_of, add_quarter-IsNumbered}
use meraipo.Imports.Quarters.Replay.{
  called_twice, found, is_verified_at, add_quarter_again, add_quarter_verified,
}
use meraipo.Imports.Maintained.{IpoInput, Register, company_of, maintain_ipo}
use meraipo.Imports.Maintained.Fixed.{IsNamed, IsKept, register_after, maintain_ipo-IsKept}
use meraipo.Imports.Batch.{Base, Record, ipo_input, result, price, document, gmp, ingest}
use meraipo.Imports.Batch.Kept.{IsSound, tables_after, ingest-IsSound}
use meraipo.Imports.Batch.Single.{ingest_single}
use meraipo.Imports.Batch.Repeated
use meraipo.Imports.Batch.Repeated.{ingest_again}

abbrev input : IpoInput
input = record {
  slug = 31;
  name = 1;
  sector = 2;
  board = 0;
  screener_url = none;
  exchange_url = none;
  offer = 5;
  sizes = 50;
  verification = verified;
  dates = 6;
  ticker = some 7;
  exchange = 1;
  baseline = some 44;
  rhp_url = some 8;
}

abbrev q1 : Term
q1 = record { year = 2025; quarter = 1 }

abbrev first_quarter : Quarterly
first_quarter = record {
  company = 3;
  term = q1;
  revision = 1;
  metrics = 40;
  source_url = 7;
  verification = verified;
  import_key = 100;
}

abbrev ledger : Ledger
ledger = record {
  companies = company_of 3 (record input { slug = 30 }) ∷ [];
  terms = q1 ∷ [];
  quarters = first_quarter ∷ [];
  audits = [];
}

abbrev better : QuarterInput
better = record {
  term = q1;
  metrics = 41;
  source_url = 7;
  verification = verified;
  import_key = 101;
}

abbrev worse : QuarterInput
worse = record better { verification = unverified }

ledger-IsNumbered : IsNumbered (first_quarter ∷ [])
ledger-IsNumbered = (λ c t k. ground arith, λ k. ground arith)

add_quarter-IsNumbered_example : IsNumbered (quarters_of ledger (add_quarter ledger 30 better))
add_quarter-IsNumbered_example = add_quarter-IsNumbered ledger 30 better ledger-IsNumbered

add_quarter_again_example :
    called_twice 30 better (add_quarter ledger 30 better) ≡ found (add_quarter ledger 30 better)
add_quarter_again_example = add_quarter_again ledger 30 better

add_quarter_verified_example :
    is_verified_at 3 q1 (quarters_of ledger (add_quarter ledger 30 worse)) ≡ true
add_quarter_verified_example = add_quarter_verified ledger 30 worse 3 q1 refl

abbrev base : Base
base = record {
  ledger = ledger;
  ipos = record { id = 5; company = 3; offer = 4; sizes = 40; quality = unverified } ∷ [];
  dates = [];
  identifiers = [];
  baselines = [];
  gmps = [];
  prices = [];
  snapshots = [];
  documents = [];
  issues = [];
  runs = [];
}

abbrev batch : List Record
batch =
    ipo_input 30 4 6 (record input { slug = 30 })
    ∷ ipo_input 31 4 6 input
    ∷ result 30 better
    ∷ price 30 (record { price_date = 500; close = 90; high = some 95; low = none })
    ∷ price 30 (record { price_date = 100; close = 120; high = none; low = some 80 })
    ∷ document 30 1 2
    ∷ gmp 30 (record { value = some 4; observed_at = 9; source_url = 7; import_key = 60 })
    ∷ []

base-IsSound : IsSound base
base-IsSound = (ledger-IsNumbered, λ c h. ground arith)

ingest-IsSound_example : IsSound (tables_after base (ingest base batch 77))
ingest-IsSound_example = ingest-IsSound base batch 77 base-IsSound

ingest_single_example :
    count_where (is_of 3 q1) (tables_after base (ingest base batch 77)).ledger.quarters ≤ max 1 1
ingest_single_example = ingest_single base batch 77 3 q1 refl

ingest_again_example :
    Repeated.called_twice [] 77 (ingest base batch 77) ≡ Repeated.found (ingest base batch 77)
ingest_again_example = ingest_again base batch [] 77

abbrev register : Register
register = record {
  companies = company_of 3 (record input { slug = 30 }) ∷ [];
  ipos = record { id = 5; company = 3; offer = 4; sizes = 40; quality = unverified } ∷ [];
  dates = [];
  identifiers = [];
  baselines = record { ipo = 5; values = 40 } ∷ [];
  documents = [];
}

register-IsNamed : IsNamed (company_of 3 (record input { slug = 30 }) ∷ [])
register-IsNamed s = ground arith

maintain_ipo-IsKept_example :
    IsKept 5 register (register_after register (maintain_ipo 4 6 none input register))
maintain_ipo-IsKept_example =
    maintain_ipo-IsKept 4 6 5 none input register register-IsNamed refl refl
