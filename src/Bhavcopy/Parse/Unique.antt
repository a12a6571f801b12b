-- ===== src/Bhavcopy/Parse/Unique.antt =====
-- What holds of the rows that `parse` of packages/providers/bhavcopy.py accepts.
use mathlib.Core.Bool.{false≢true}
use meraipo.Prelude.{
  ℕ, ◌+◌, ◌≡◌, ◌≤◌, refl, sym, ◌∙◌, inl, inr, Bool, true, false, not, ◌&&◌, Option, none, some,
  List, [], ◌∷◌, arith, ◌==◌, count_where, rows_where, map, All, length, length-append, opt_is,
  Bool-cases,
}
use meraipo.Schedule.Slots.{Exchange}
use meraipo.Bhavcopy.Fields.{Line, Row, Reject, Verdict, skipped, taken, refused, judge}
use meraipo.Bhavcopy.Parse.{
  FileError, Scan, raised, scanned, file_error, add_verdict, add_line, scan_lines, row_isin,
  ambiguous, reject_ambiguous, split_duplicates, parse, finish_scan, same_exchange,
}

abbrev pub rows_of : Scan → List Row
rows_of (raised e) = []
rows_of (scanned rows rejects n) = rows

abbrev pub rejects_of : Scan → List Reject
rejects_of (raised e) = []
rejects_of (scanned rows rejects n) = rejects

abbrev pub is_scanned : Scan → Bool
is_scanned (raised e) = false
is_scanned (scanned rows rejects n) = true

abbrev pub count_of : Scan → ℕ
count_of (raised e) = 0
count_of (scanned rows rejects n) = n

count_where-rows_where :
    (p q : Row → Bool) (xs : List Row) → count_where p (rows_where q xs) ≤ count_where p xs
count_where-rows_where p q [] = omega arith
count_where-rows_where p q (x ∷ xs) = ground (arith, count_where-rows_where p q xs)

All-rows_where :
    (P : Row → Type 0) (q : Row → Bool) (xs : List Row)
    → ((r : Row) → q r ≡ true → P r)
    → All P (rows_where q xs)
All-rows_where P q [] f = tt
All-rows_where P q (x ∷ xs) f = elim (Bool-cases (q x)) [
  | inl y ↦ rw y (f x y, All-rows_where P q xs f)
  | inr n ↦ rw n (All-rows_where P q xs f)
]

All-rows_where-of :
    (P : Row → Type 0) (q : Row → Bool) (xs : List Row) → All P xs → All P (rows_where q xs)
All-rows_where-of P q [] a = tt
All-rows_where-of P q (x ∷ xs) (p, a) = elim (Bool-cases (q x)) [
  | inl y ↦ rw y (p, All-rows_where-of P q xs a)
  | inr n ↦ rw n (All-rows_where-of P q xs a)
]

-- A security of some accepted rows has one row among them.
abbrev pub IsAlone : List Row → Row → Type 0
IsAlone rows r = count_where (row_isin r.isin) rows ≤ 1

unambiguous_once :
    (rows : List Row) (rejects : List Reject) (r : Row)
    → not (ambiguous rows rejects r) ≡ true
    → count_where (row_isin r.isin) rows ≤ 1
unambiguous_once rows rejects r h = ground arith

split-IsAlone :
    (rows : List Row) (rejects : List Reject) (n : ℕ)
    → All
        (IsAlone (rows_of (split_duplicates rows rejects n)))
        (rows_of (split_duplicates rows rejects n))
unfolding split_duplicates
split-IsAlone rows rejects n = All-rows_where _ _ rows (λ r h.
    let a = count_where-rows_where (row_isin r.isin) (λ q. not (ambiguous rows rejects q)) rows in
    let b = unambiguous_once rows rejects r h in omega (arith, a, b))

finish-IsAlone : (s : Scan) → All (IsAlone (rows_of (finish_scan s))) (rows_of (finish_scan s))
unfolding finish_scan
finish-IsAlone (raised e) = tt
finish-IsAlone (scanned rows rejects n) = elim (Bool-cases (n == 0)) [
  | inl z ↦ rw z tt
  | inr p ↦ rw p (split-IsAlone rows rejects n)
]

-- No two rows that `parse` accepts are of the same security.
pub parse_unique :
    (columns : Bool) (exchange : Exchange) (day : ℕ) (lines : List Line)
    → All
        (IsAlone (rows_of (parse columns exchange day lines)))
        (rows_of (parse columns exchange day lines))
unfolding parse
parse_unique false exchange day lines = tt
parse_unique true exchange day lines = finish-IsAlone (scan_lines exchange day 0 lines)

length-map_reject : (rows : List Row) → length (map reject_ambiguous rows) ≡ length rows
length-map_reject [] = refl
length-map_reject (r ∷ rs) = omega (arith, length-map_reject rs)

-- How many rows and errors a scan has, together.
abbrev pub found : Scan → ℕ
found s = length (rows_of s) + length (rejects_of s)

found-add_verdict : (v : Verdict) (s : Scan) → found (add_verdict v s) ≤ found s + 1
found-add_verdict v (raised e) = ground arith
found-add_verdict skipped (scanned rows rejects n) = ground arith
found-add_verdict (taken r) (scanned rows rejects n) = ground arith
found-add_verdict (refused r) (scanned rows rejects n) = ground arith

found-add_line :
    (o : Option FileError) (v : Verdict) (s : Scan) → found (add_line o v s) ≤ found s + 1
found-add_line none v s = found-add_verdict v s
found-add_line (some e) v s = omega arith

found-scan_lines :
    (exchange : Exchange) (day count : ℕ) (lines : List Line)
    → found (scan_lines exchange day count lines) ≤ length lines
unfolding scan_lines
found-scan_lines exchange day count [] = omega arith
found-scan_lines exchange day count (l ∷ ls) =
    let rest = scan_lines exchange day (count + 1) ls in
    omega (
      arith,
      found-add_line (file_error exchange day (count + 1) l) (judge exchange (count + 2) l) rest,
      found-scan_lines exchange day (count + 1) ls,
    )

rows_partition :
    (q : Row → Bool) (xs : List Row)
    → length (rows_where (λ r. not (q r)) xs) + length (rows_where q xs) ≡ length xs
rows_partition q [] = refl
rows_partition q (x ∷ xs) = ground (arith, rows_partition q xs)

found-split :
    (rows : List Row) (rejects : List Reject) (n : ℕ)
    → found (split_duplicates rows rejects n) ≡ length rows + length rejects
unfolding split_duplicates
found-split rows rejects n =
    let doubled = rows_where (ambiguous rows rejects) rows in
    omega (
      arith,
      length-append rejects (map reject_ambiguous doubled),
      length-map_reject doubled,
      rows_partition (ambiguous rows rejects) rows,
    )

found-finish : (s : Scan) → found (finish_scan s) ≤ found s
unfolding finish_scan
found-finish (raised e) = omega arith
found-finish (scanned rows rejects n) = elim (Bool-cases (n == 0)) [
  | inl z ↦ rw z (omega arith)
  | inr p ↦ rw p (omega (arith, found-split rows rejects n))
]

-- Every line gives at most one row or one error: `parse` makes no more of them than there are lines.
parse_no_more :
    (columns : Bool) (exchange : Exchange) (day : ℕ) (lines : List Line)
    → length (rows_of (parse columns exchange day lines))
        + length (rejects_of (parse columns exchange day lines))
      ≤ length lines
unfolding parse
parse_no_more false exchange day lines = omega arith
parse_no_more true exchange day lines =
    omega
      (arith, found-finish (scan_lines exchange day 0 lines), found-scan_lines exchange day 0 lines)

-- A line of the right day, exchange and segment.
abbrev pub IsOf : Exchange → ℕ → Line → Type 0
IsOf exchange day l =
    (opt_is l.trade_date day && (same_exchange l.source exchange && l.cash_market)) ≡ true

file_error-IsOf :
    (exchange : Exchange) (day count : ℕ) (l : Line)
    → file_error exchange day count l ≡ none
    → IsOf exchange day l
unfolding file_error
file_error-IsOf exchange day count l h = ground arith

is_scanned-add : (v : Verdict) (s : Scan) → is_scanned (add_verdict v s) ≡ is_scanned s
is_scanned-add v (raised e) = refl
is_scanned-add skipped (scanned rows rejects n) = refl
is_scanned-add (taken r) (scanned rows rejects n) = refl
is_scanned-add (refused r) (scanned rows rejects n) = refl

scanned-add_line :
    (o : Option FileError) (v : Verdict) (s : Scan)
    → is_scanned (add_line o v s) ≡ true
    → (o ≡ none) × (is_scanned s ≡ true)
scanned-add_line none v s h = (refl, sym (is_scanned-add v s) ∙ h)
scanned-add_line (some e) v s h = absurd (false≢true h)

scan_lines-IsOf :
    (exchange : Exchange) (day count : ℕ) (lines : List Line)
    → is_scanned (scan_lines exchange day count lines) ≡ true
    → All (IsOf exchange day) lines
unfolding scan_lines
scan_lines-IsOf exchange day count [] h = tt
scan_lines-IsOf exchange day count (l ∷ ls) h =
    let (q, r) =
      scanned-add_line (file_error exchange day (count + 1) l) (judge exchange (count + 2) l)
        (scan_lines exchange day (count + 1) ls) h in
    (file_error-IsOf exchange day (count + 1) l q, scan_lines-IsOf exchange day (count + 1) ls r)

finish-is_scanned : (s : Scan) → is_scanned (finish_scan s) ≡ true → is_scanned s ≡ true
unfolding finish_scan
finish-is_scanned (raised e) h = h
finish-is_scanned (scanned rows rejects n) h = refl

-- `parse` accepts a file only if every line of it is of the expected day, exchange and segment.
parse_same_day :
    (columns : Bool) (exchange : Exchange) (day : ℕ) (lines : List Line)
    → is_scanned (parse columns exchange day lines) ≡ true
    → All (IsOf exchange day) lines
unfolding parse
parse_same_day false exchange day lines h = absurd (false≢true h)
parse_same_day true exchange day lines h =
    scan_lines-IsOf exchange day 0 lines (finish-is_scanned (scan_lines exchange day 0 lines) h)
