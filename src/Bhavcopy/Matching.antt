-- ===== src/Bhavcopy/Matching.antt =====
-- `preview` of apps/worker/bhavcopy.py: the rows of a file matched with the listed companies.
pub mod Counted
use meraipo.Prelude.{
  ℕ, suc, ◌+◌, Bool, true, false, not, ◌&&◌, ◌||◌, Option, none, some, List, [], ◌∷◌, ◌++◌, ltb,
  ◌==◌, if◌then◌else◌, opt_is, any_of, count_where, rows_where, map, length, is_some,
}
use meraipo.Schedule.Slots.{Exchange, nse, bse}
use meraipo.Bhavcopy.Fields.{
  Row, Reject, Code, identifier_conflict, isin_conflict, ambiguous_company_rows, is_nse,
}

-- A company with its IPO's state, as the query of `mappings` joins them.
pub record Company : Type 0 where
  pub id : ℕ
  pub isin : Option ℕ
  pub listed : Bool
  pub is_demo : Bool

pub data Registry : Type 0 where
  nse_symbol bse_code bse_symbol : Registry

pub record Identifier : Type 0 where
  pub company : ℕ
  pub registry : Registry
  pub ticker : ℕ

abbrev is_registry : Registry → Registry → Bool
is_registry nse_symbol nse_symbol = true
is_registry bse_code bse_code = true
is_registry bse_symbol bse_symbol = true
is_registry _ _ = false

-- Whether an identifier names a row: by its symbol on the NSE; by its code or its symbol on the BSE.
abbrev pub names_row : Exchange → Row → Identifier → Bool
names_row nse row i = is_registry i.registry nse_symbol && i.ticker == row.symbol
names_row bse row i =
    is_registry i.registry bse_code && i.ticker == row.security_id
    || is_registry i.registry bse_symbol && i.ticker == row.symbol

-- A company that a row may belong to.
abbrev pub is_candidate : Exchange → List Identifier → Row → Company → Bool
is_candidate exchange ids row c =
    (c.listed && not c.is_demo)
    && (opt_is c.isin row.isin || any_of (λ i. i.company == c.id && names_row exchange row i) ids)

pub data Match : Type 0 where
  unmatched : Match
  conflict : Code → Match
  matched : ℕ → Match

abbrev other_isin : Option ℕ → ℕ → Bool
other_isin none k = false
other_isin (some own) k = not (own == k)

abbrev match_candidates : Row → List Company → Match
match_candidates row [] = unmatched
match_candidates row (c ∷ []) =
    if other_isin c.isin row.isin then conflict isin_conflict else matched c.id
match_candidates row (c ∷ d ∷ cs) = conflict identifier_conflict

unfoldable pub match_row : Exchange → List Company → List Identifier → Row → Match
match_row exchange companies ids row =
    match_candidates row (rows_where (is_candidate exchange ids row) companies)

pub record Matched : Type 0 where
  pub company : ℕ
  pub row : Row

-- The lists and the counter of the loop.
pub record Sorted : Type 0 where
  pub rows : List Matched
  pub conflicts : List Reject
  pub unmatched : ℕ

abbrev pub reject_row : Row → Code → Reject
reject_row row c = record { line = row.line; isin = row.isin; code = c }

abbrev pub add_match : Row → Match → Sorted → Sorted
add_match row unmatched s = record s { unmatched = s.unmatched + 1 }
add_match row (conflict c) s = record s { conflicts = reject_row row c ∷ s.conflicts }
add_match row (matched k) s = record s { rows = record { company = k; row = row } ∷ s.rows }

unfoldable pub sort_rows : Exchange → List Company → List Identifier → List Row → Sorted
sort_rows exchange companies ids [] = record { rows = []; conflicts = []; unmatched = 0 }
sort_rows exchange companies ids (row ∷ rows) =
    add_match row (match_row exchange companies ids row) (sort_rows exchange companies ids rows)

abbrev pub of_company : ℕ → Matched → Bool
of_company k q = q.company == k

-- `company_id in repeated`
abbrev pub repeats : List Matched → Matched → Bool
repeats rows q = ltb 1 (count_where (of_company q.company) rows)

abbrev pub reject_repeat : Matched → Reject
reject_repeat q = reject_row q.row ambiguous_company_rows

-- The result: the rows of companies that have one row, the errors, and the counters.
pub record Preview : Type 0 where
  pub matched : List Matched
  pub errors : List Reject
  pub total : ℕ
  pub unmatched : ℕ

unfoldable pub preview :
    Exchange → List Company → List Identifier → List Row → List Reject → ℕ → Preview
unfolding sort_rows
preview exchange companies ids rows errors total =
    let s = sort_rows exchange companies ids rows in
    record {
      matched = rows_where (λ q. not (repeats s.rows q)) s.rows;
      errors = errors ++ s.conflicts ++ map reject_repeat (rows_where (repeats s.rows) s.rows);
      total = total;
      unmatched = s.unmatched;
    }
