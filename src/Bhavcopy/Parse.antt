-- ===== src/Bhavcopy/Parse.antt =====
-- `parse` of packages/providers/bhavcopy.py: a file is refused as a whole where a line belongs to
-- another day, exchange or segment; lines of one security never overwrite each other.
pub mod Unique
use meraipo.Prelude.{
  ℕ, ◌+◌, Bool, true, false, not, ◌&&◌, ◌||◌, Option, none, some, List, [], ◌∷◌, ◌++◌, ltb, ◌==◌,
  if◌then◌else◌, opt_is, count_where, rows_where, map,
}
use meraipo.Schedule.Slots.{Exchange, nse, bse}
use meraipo.Bhavcopy.Fields.{
  Line, Row, Reject, ambiguous_security_rows, Verdict, skipped, taken, refused, judge, is_nse,
}

pub data FileError : Type 0 where
  schema_changed too_many_rows malformed_row invalid_trade_date wrong_trade_date
        wrong_exchange_or_segment empty_file :
      FileError

-- The loop's result: it raised, or its records and its errors, each in the order of the file, and the
-- count.
pub data Scan : Type 0 where
  raised : FileError → Scan
  scanned : List Row → List Reject → ℕ → Scan

abbrev pub same_exchange : Option Exchange → Exchange → Bool
same_exchange none e = false
same_exchange (some s) e = (is_nse s && is_nse e) || (not (is_nse s) && not (is_nse e))

-- The tests that refuse the whole file, on the line that `enumerate` counts as `count`.
unfoldable pub file_error : Exchange → ℕ → ℕ → Line → Option FileError
file_error exchange day count l =
    if ltb 100000 count
    then some too_many_rows
    else if not l.intact
    then some malformed_row
    else elim l.trade_date [
      | none ↦ some invalid_trade_date
      | some actual ↦
          if not (actual == day)
          then some wrong_trade_date
          else if not (same_exchange l.source exchange && l.cash_market)
          then some wrong_exchange_or_segment
          else none
    ]

abbrev pub add_verdict : Verdict → Scan → Scan
add_verdict v (raised e) = raised e
add_verdict skipped (scanned rows rejects n) = scanned rows rejects n
add_verdict (taken row) (scanned rows rejects n) = scanned (row ∷ rows) rejects n
add_verdict (refused r) (scanned rows rejects n) = scanned rows (r ∷ rejects) n

-- A line with what refuses the file at it, before the later lines.
abbrev pub add_line : Option FileError → Verdict → Scan → Scan
add_line (some e) v rest = raised e
add_line none v rest = add_verdict v rest

-- The loop, from the count of lines read before on.
unfoldable pub scan_lines : Exchange → ℕ → ℕ → List Line → Scan
scan_lines exchange day count [] = scanned [] [] count
scan_lines exchange day count (l ∷ ls) =
    add_line (file_error exchange day (count + 1) l) (judge exchange (count + 2) l)
      (scan_lines exchange day (count + 1) ls)

abbrev pub row_isin : ℕ → Row → Bool
row_isin k r = r.isin == k

abbrev pub reject_isin : ℕ → Reject → Bool
reject_isin k r = r.isin == k

-- `Counter(r["isin"] for r in records + errors)`
abbrev pub mentions : List Row → List Reject → ℕ → ℕ
mentions rows rejects k = count_where (row_isin k) rows + count_where (reject_isin k) rejects

abbrev pub ambiguous : List Row → List Reject → Row → Bool
ambiguous rows rejects r = ltb 1 (mentions rows rejects r.isin)

abbrev pub reject_ambiguous : Row → Reject
reject_ambiguous r = record { line = r.line; isin = r.isin; code = ambiguous_security_rows }

-- The rows whose security is mentioned once, and the errors with those of the others.
unfoldable pub split_duplicates : List Row → List Reject → ℕ → Scan
split_duplicates rows rejects n =
    scanned (rows_where (λ r. not (ambiguous rows rejects r)) rows)
      (rejects ++ map reject_ambiguous (rows_where (ambiguous rows rejects) rows)) n

finish_scan : Scan → Scan
unfolding split_duplicates
finish_scan (raised e) = raised e
finish_scan (scanned rows rejects n) =
    if n == 0 then raised empty_file else split_duplicates rows rejects n

-- `columns` says whether the header has the required columns, each once.
unfoldable pub parse : Bool → Exchange → ℕ → List Line → Scan
unfolding finish_scan
parse columns exchange day lines =
    if columns then finish_scan (scan_lines exchange day 0 lines) else raised schema_changed
