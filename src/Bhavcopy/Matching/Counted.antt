-- ===== src/Bhavcopy/Matching/Counted.antt =====
-- What `preview` of apps/worker/bhavcopy.py makes of the rows of a file.
use meraipo.Prelude.{
  ℕ, suc, ◌+◌, ◌≡◌, ◌≤◌, refl, inl, inr, Bool, true, not, List, [], ◌∷◌, ◌++◌, arith, count_where,
  rows_where, map, length, length-append, All, Bool-cases,
}
use meraipo.Schedule.Slots.{Exchange}
use meraipo.Bhavcopy.Fields.{Row, Reject}
use meraipo.Bhavcopy.Matching.{
  Company, Identifier, Match, unmatched, conflict, matched, match_row, Matched, Sorted, add_match,
  sort_rows, of_company, repeats, reject_repeat, preview,
}

rows_partition :
    (q : Matched → Bool) (xs : List Matched)
    → length (rows_where (λ r. not (q r)) xs) + length (rows_where q xs) ≡ length xs
rows_partition q [] = refl
rows_partition q (x ∷ xs) = ground (arith, rows_partition q xs)

length-map_reject : (rows : List Matched) → length (map reject_repeat rows) ≡ length rows
length-map_reject [] = refl
length-map_reject (r ∷ rs) = omega (arith, length-map_reject rs)

abbrev size : Sorted → ℕ
size s = length s.rows + length s.conflicts + s.unmatched

size-add_match : (row : Row) (x : Match) (s : Sorted) → size (add_match row x s) ≡ suc (size s)
size-add_match row unmatched s = omega arith
size-add_match row (conflict c) s = omega arith
size-add_match row (matched k) s = omega arith

size-sort_rows :
    (exchange : Exchange) (companies : List Company) (ids : List Identifier) (rows : List Row)
    → size (sort_rows exchange companies ids rows) ≡ length rows
unfolding sort_rows
size-sort_rows exchange companies ids [] = refl
size-sort_rows exchange companies ids (row ∷ rows) = omega (
  arith,
  size-add_match row (match_row exchange companies ids row) (sort_rows exchange companies ids rows),
  size-sort_rows exchange companies ids rows,
)

-- No row is lost and none is counted twice: the matched, the unmatched and the rejected rows are
-- together the rows of the file with the errors that it had.
pub preview_conserves :
    (exchange : Exchange) (companies : List Company) (ids : List Identifier) (rows : List Row)
    (errors : List Reject) (total : ℕ)
    → length (preview exchange companies ids rows errors total).matched
        + (preview exchange companies ids rows errors total).unmatched
        + length (preview exchange companies ids rows errors total).errors
      ≡ length rows + length errors
unfolding preview
preview_conserves exchange companies ids rows errors total =
    let s = sort_rows exchange companies ids rows in
    let doubled = rows_where (repeats s.rows) s.rows in
    omega (
      arith,
      rows_partition (repeats s.rows) s.rows,
      length-append errors (s.conflicts ++ map reject_repeat doubled),
      length-append (errors ++ s.conflicts) (map reject_repeat doubled),
      length-append errors s.conflicts,
      length-append s.conflicts (map reject_repeat doubled),
      length-map_reject doubled,
      size-sort_rows exchange companies ids rows,
    )

-- A company of some matched rows has one row among them.
abbrev pub IsOnly : List Matched → Matched → Type 0
IsOnly rows q = count_where (of_company q.company) rows ≤ 1

count_where-rows_where :
    (p q : Matched → Bool) (xs : List Matched) → count_where p (rows_where q xs) ≤ count_where p xs
count_where-rows_where p q [] = omega arith
count_where-rows_where p q (x ∷ xs) = ground (arith, count_where-rows_where p q xs)

All-rows_where :
    (P : Matched → Type 0) (q : Matched → Bool) (xs : List Matched)
    → ((r : Matched) → q r ≡ true → P r)
    → All P (rows_where q xs)
All-rows_where P q [] f = tt
All-rows_where P q (x ∷ xs) f = elim (Bool-cases (q x)) [
  | inl y ↦ rw y (f x y, All-rows_where P q xs f)
  | inr n ↦ rw n (All-rows_where P q xs f)
]

single_once :
    (rows : List Matched) (q : Matched)
    → not (repeats rows q) ≡ true
    → count_where (of_company q.company) rows ≤ 1
single_once rows q h = ground arith

-- No company gets two rows of one file.
preview_once :
    (exchange : Exchange) (companies : List Company) (ids : List Identifier) (rows : List Row)
    (errors : List Reject) (total : ℕ)
    → All
        (IsOnly (preview exchange companies ids rows errors total).matched)
        (preview exchange companies ids rows errors total).matched
unfolding preview
preview_once exchange companies ids rows errors total =
    let s = sort_rows exchange companies ids rows in
    All-rows_where _ _ s.rows (λ q h. omega (
      arith,
      count_where-rows_where (of_company q.company) (λ r. not (repeats s.rows r)) s.rows,
      single_once s.rows q h,
    ))
