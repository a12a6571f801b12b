-- ===== src/Results/Store.antt =====
-- Financial results and the filings that they come from: `store_filing` and `publish` of
-- apps/worker/results.py. A set of facts, a source's metadata and a date are numbers, since the code
-- only compares them.
pub mod Versions
pub mod Refined
use meraipo.Prelude.{
  ℕ, ◌+◌, Bool, true, false, not, ◌&&◌, ◌||◌, Option, none, some, List, [], ◌∷◌, ◌++◌, leb, ◌==◌,
  if◌then◌else◌, is_some, any_of, first_where, update_first,
}
use meraipo.Schedule.Slots.{Exchange, nse, bse}

-- What `publish` looks a result up by.
pub record Period : Type 0 where
  pub company : ℕ
  pub period_start : ℕ
  pub period_end : ℕ
  pub period_type : ℕ
  pub basis : ℕ

pub record Result : Type 0 where
  pub period : Period
  pub filing : ℕ
  pub revision : ℕ
  pub current : Bool
  pub facts : ℕ
  pub provenance : List ℕ

pub data FilingStatus : Type 0 where
  awaiting_processing unresolved_mapping published parsing_review_required download_retry :
      FilingStatus

pub data FilingError : Type 0 where
  link_required timestamp_review_required cross_exchange_conflict older_or_conflicting_revision
        mapping_required sector_review_required previous_missing :
      FilingError
  source_error other_error : ℕ → FilingError

pub record Filing : Type 0 where
  pub id : ℕ
  pub exchange : Exchange
  pub identity : ℕ
  pub company : Option ℕ
  pub announced_at : Option ℕ
  pub status : FilingStatus
  pub error : Option FilingError
  pub attempts : ℕ
  pub retry_at : Option ℕ

-- One parsed period of a filing.
pub record Item : Type 0 where
  pub period : Period
  pub facts : ℕ

pub data Attempt {ℓ} (A : Type ℓ) : Type ℓ where
  raised : FilingError → Attempt A
  returned : A → Attempt A

infixl 10 ◌>>=◌
abbrev pub ◌>>=◌ {ℓ κ} : {A : Type ℓ} {B : Type κ} → Attempt A → (A → Attempt B) → Attempt B
raised e >>= f = raised e
returned a >>= f = f a

-- What a filing is when it arrives.
pub record Notice : Type 0 where
  pub exchange : Exchange
  pub identifier : ℕ
  pub metadata : ℕ
  pub filing_id : Option ℕ
  pub announced_at : Option ℕ
  pub attachment_name : Option ℕ
  pub subject : Option ℕ

abbrev is_bse : Exchange → Bool
is_bse bse = true
is_bse nse = false

-- The identity under which a filing is stored; `digest` and `digest_bse` stand for the hash of the
-- fields that the code lists.
module _ (digest : Exchange → ℕ → ℕ) (digest_bse : ℕ → ℕ → Option ℕ → Option ℕ → Option ℕ → ℕ) where
  abbrev pub identity_of : Notice → ℕ
  identity_of n = elim n.filing_id [
    | none ↦ digest n.exchange n.metadata
    | some id ↦
        if is_bse n.exchange
        then digest_bse n.identifier id n.announced_at n.attachment_name n.subject
        else digest n.exchange n.metadata
  ]

  abbrev pub has_identity : ℕ → Filing → Bool
  has_identity k f = f.identity == k

  -- `mapping` is the company of the identifier, if it is known; `id` the new row's.
  unfoldable pub store_filing : Notice → Option ℕ → ℕ → List Filing → List Filing × Bool
  store_filing n mapping id filings =
      if any_of (has_identity (identity_of n)) filings then (filings, false) else (
        filings
            ++ record {
              id = id;
              exchange = n.exchange;
              identity = identity_of n;
              company = mapping;
              announced_at = n.announced_at;
              status = if is_some mapping then awaiting_processing else unresolved_mapping;
              error = none;
              attempts = 0;
              retry_at = none;
            }
              ∷ [],
        true,
      )

abbrev pub same_period : Period → Period → Bool
same_period p q =
    (p.company == q.company && p.period_start == q.period_start)
    && (p.period_end == q.period_end && p.period_type == q.period_type && p.basis == q.basis)

abbrev pub is_current_of : Period → Result → Bool
is_current_of p r = same_period r.period p && r.current

abbrev pub same_exchange : Exchange → Exchange → Bool
same_exchange nse nse = true
same_exchange bse bse = true
same_exchange _ _ = false

-- `sorted(set(provenance + [id]))`, of a list that is already in order and has no repetition.
abbrev pub add_source : ℕ → List ℕ → List ℕ
add_source k [] = k ∷ []
add_source k (x ∷ xs) =
    let rest = add_source k xs in
    if x == k then x ∷ xs else if leb k x then k ∷ x ∷ xs else x ∷ rest

abbrev pub has_id : ℕ → Filing → Bool
has_id k f = f.id == k

abbrev pub new_result : ℕ → ℕ → Item → Result
new_result filing revision item = record {
  period = item.period;
  filing = filing;
  revision = revision;
  current = true;
  facts = item.facts;
  provenance = filing ∷ [];
}

abbrev pub retire : Result → Result
retire r = record r { current = false }

abbrev pub credit : ℕ → Result → Result
credit filing r = record r { provenance = add_source filing r.provenance }

-- The tests on the filing of the current result before a revision takes its place.
abbrev pub may_revise : Filing → ℕ → Option Filing → Attempt Bool
may_revise filing announced none = raised previous_missing
may_revise filing announced (some previous) =
    if not (same_exchange previous.exchange filing.exchange)
    then raised cross_exchange_conflict
    else elim previous.announced_at [
      | none ↦ raised previous_missing
      | some before ↦
          if leb announced before then raised older_or_conflicting_revision else returned true
    ]

-- The table of results and the count of those published.
pub record Published : Type 0 where
  pub results : List Result
  pub count : ℕ

-- The body of the loop, with the current result of the item's period.
unfoldable pub publish_over :
    List Filing → Filing → ℕ → Item → Published → Option Result → Attempt Published
publish_over filings filing announced item p none =
    returned
      (record { results = p.results ++ new_result filing.id 1 item ∷ []; count = p.count + 1 })
publish_over filings filing announced item p (some c) =
    if c.facts == item.facts
    then returned (record p {
      results = update_first (is_current_of item.period) (credit filing.id) p.results;
    })
    else do
      _ ← may_revise filing announced (first_where (has_id c.filing) filings)
      returned (record {
        results =
            update_first (is_current_of item.period) retire p.results
            ++ new_result filing.id (c.revision + 1) item ∷ [];
        count = p.count + 1;
      })

unfoldable pub publish_items : List Filing → Filing → ℕ → List Item → Published → Attempt Published
publish_items filings filing announced [] p = returned p
publish_items filings filing announced (item ∷ items) p =
    publish_over filings filing announced item p (first_where (is_current_of item.period) p.results)
    >>= (λ q. publish_items filings filing announced items q)

-- `publish`, less the change of the filing's status that follows it.
unfoldable pub publish : List Filing → Filing → List Item → List Result → Attempt Published
publish filings filing items results = elim filing.announced_at [
  | none ↦ raised timestamp_review_required
  | some t ↦ publish_items filings filing t items (record { results = results; count = 0 })
]
