-- ===== src/Imports/Quarters.antt =====
-- `add_quarter` of apps/api/services.py: quarterly results and their revisions. The metrics of a result
-- and a source's URL are numbers, since the code only compares them; an error leaves the tables as they
-- were, since the transaction is rolled back. The rows of `field_provenance` are left out.
pub mod Numbered
pub mod Replay
use meraipo.Prelude.{
  ℕ, ◌+◌, Bool, true, false, not, ◌&&◌, Option, none, some, List, [], ◌∷◌, ◌++◌, ltb, ◌==◌,
  if◌then◌else◌, is_some, any_of, first_where,
}

pub data Verification : Type 0 where
  unverified verified partial : Verification

-- A row of `financial_periods`; its id is its year and quarter, which are unique.
pub record Term : Type 0 where
  pub year : ℕ
  pub quarter : ℕ

pub record Company : Type 0 where
  pub id : ℕ
  pub slug : ℕ
  pub name : ℕ
  pub sector : ℕ
  pub board : ℕ
  pub screener_url : Option ℕ
  pub exchange_url : Option ℕ

pub record Quarterly : Type 0 where
  pub company : ℕ
  pub term : Term
  pub revision : ℕ
  pub metrics : ℕ
  pub source_url : ℕ
  pub verification : Verification
  pub import_key : ℕ

pub record QuarterInput : Type 0 where
  pub term : Term
  pub metrics : ℕ
  pub source_url : ℕ
  pub verification : Verification
  pub import_key : ℕ

pub record Audit : Type 0 where
  pub before : Option Quarterly
  pub after : Quarterly

pub record Ledger : Type 0 where
  pub companies : List Company
  pub terms : List Term
  pub quarters : List Quarterly
  pub audits : List Audit

pub data ImportError : Type 0 where
  company_not_found key_of_other_company key_reused verified_result unknown_company ipo_not_found
        ipo_refused :
      ImportError

pub data Outcome {ℓ} (A : Type ℓ) : Type ℓ where
  raised : ImportError → Outcome A
  returned : A → Outcome A

pub record Added : Type 0 where
  pub ledger : Ledger
  pub quarter : Quarterly
  pub created : Bool

abbrev pub is_verified : Verification → Bool
is_verified verified = true
is_verified _ = false

abbrev pub same_verification : Verification → Verification → Bool
same_verification unverified unverified = true
same_verification verified verified = true
same_verification partial partial = true
same_verification _ _ = false

abbrev pub same_term : Term → Term → Bool
same_term s t = s.year == t.year && s.quarter == t.quarter

abbrev pub has_slug : ℕ → Company → Bool
has_slug slug c = c.slug == slug

abbrev pub has_key : ℕ → Quarterly → Bool
has_key k q = q.import_key == k

abbrev pub is_of : ℕ → Term → Quarterly → Bool
is_of c t q = q.company == c && same_term q.term t

abbrev pub newest : Quarterly → Option Quarterly → Option Quarterly
newest q none = some q
newest q (some r) = if ltb q.revision r.revision then some r else some q

-- `SELECT … WHERE p ORDER BY revision DESC LIMIT 1`.
abbrev pub latest_where : (Quarterly → Bool) → List Quarterly → Option Quarterly
latest_where p [] = none
latest_where p (q ∷ qs) = let rest = latest_where p qs in if p q then newest q rest else rest

-- Whether a row holds the values that its import key is used with again.
abbrev pub same_values : Quarterly → QuarterInput → Bool
same_values q d =
    (q.metrics == d.metrics && same_term q.term d.term)
    && (q.source_url == d.source_url && same_verification q.verification d.verification)

abbrev pub replay : Ledger → Company → QuarterInput → Quarterly → Outcome Added
replay l c d q =
    if not (q.company == c.id)
    then raised key_of_other_company
    else if not (same_values q d)
    then raised key_reused
    else returned (record { ledger = l; quarter = q; created = false })

abbrev pub add_term : Term → List Term → List Term
add_term t ts = if any_of (same_term t) ts then ts else ts ++ t ∷ []

abbrev pub next_revision : Option Quarterly → ℕ
next_revision none = 1
next_revision (some q) = q.revision + 1

-- Whether the latest result may not be replaced.
abbrev pub is_protected : Option Quarterly → QuarterInput → Bool
is_protected none d = false
is_protected (some q) d = is_verified q.verification && not (is_verified d.verification)

abbrev pub revision_of : Company → QuarterInput → ℕ → Quarterly
revision_of c d n = record {
  company = c.id;
  term = d.term;
  revision = n;
  metrics = d.metrics;
  source_url = d.source_url;
  verification = d.verification;
  import_key = d.import_key;
}

abbrev pub insert_quarter : Ledger → Option Quarterly → Quarterly → Ledger
insert_quarter l latest q = record l {
  terms = add_term q.term l.terms;
  quarters = l.quarters ++ q ∷ [];
  audits = l.audits ++ record { before = latest; after = q } ∷ [];
}

abbrev pub add_revision : Ledger → Company → QuarterInput → Option Quarterly → Outcome Added
add_revision l c d latest =
    if is_protected latest d
    then raised verified_result
    else returned (record {
      ledger = insert_quarter l latest (revision_of c d (next_revision latest));
      quarter = revision_of c d (next_revision latest);
      created = true;
    })

abbrev pub add_for : Ledger → Company → QuarterInput → Option Quarterly → Outcome Added
add_for l c d none = add_revision l c d (latest_where (is_of c.id d.term) l.quarters)
add_for l c d (some q) = replay l c d q

unfoldable pub add_quarter : Ledger → ℕ → QuarterInput → Outcome Added
add_quarter l slug d = elim (first_where (has_slug slug) l.companies) [
  | none ↦ raised company_not_found
  | some c ↦ add_for l c d (first_where (has_key d.import_key) l.quarters)
]
