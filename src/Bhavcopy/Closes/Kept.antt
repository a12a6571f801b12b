-- ===== src/Bhavcopy/Closes/Kept.antt =====
-- What the loop of `import_file` of apps/worker/bhavcopy.py keeps.
use mathlib.Core.List.{append_assoc}
use mathlib.Core.Option.{none-ne-some}
use meraipo.Prelude.{
  ℕ, suc, ◌+◌, ◌++◌, if◌then◌else◌, sym, ap, ◌∙◌, ◌≡◌, refl, inl, inr, Option, none, some, List, [],
  ◌∷◌, arith, length, length-append, length-update_where, first_where, Bool-cases,
}
use meraipo.Schedule.Slots.{Exchange}
use meraipo.Bhavcopy.Matching.{Matched}
use meraipo.Bhavcopy.Closes.{
  Close, Revision, same_values, values_of, is_close_of, Import, set_values, import_row, store_row,
  import_rows, new_import,
}

-- What one turn or several of the loop add to the tables and the counters.
pub record Grows (n : ℕ) (s t : Import) : Type 0 where
  pub rows : t.inserted + t.updated + t.unchanged ≡ s.inserted + s.updated + s.unchanged + n
  pub closes : length t.closes + s.inserted ≡ length s.closes + t.inserted
  pub revisions : length t.revisions + s.updated ≡ length s.revisions + t.updated

store_row-Grows :
    (exchange : Exchange) (day file : ℕ) (q : Matched) (s : Import) (o : Option Close)
    → Grows 1 s (store_row exchange day file q s o)
unfolding store_row
store_row-Grows exchange day file q s none = record {
  rows = omega arith;
  closes = omega (arith, length-append s.closes (_ ∷ []));
  revisions = refl;
}
store_row-Grows exchange day file q s (some c) =
    elim (Bool-cases (same_values c.values (values_of q.row))) [
      | inl same ↦
          rw (store_row, same) (record { rows = omega arith; closes = refl; revisions = refl })
      | inr other ↦
          rw (store_row, other)
            (record {
              rows = omega arith;
              closes = omega (
                arith,
                length-update_where (is_close_of exchange day q.company)
                    (set_values file (values_of q.row)) s.closes,
              );
              revisions = omega arith;
            })
    ]

import_row-Grows :
    (exchange : Exchange) (day file : ℕ) (existing : List Close) (q : Matched) (s : Import)
    → Grows 1 s (import_row exchange day file existing q s)
unfolding import_row
import_row-Grows exchange day file existing q s =
    store_row-Grows exchange day file q s
      (first_where (is_close_of exchange day q.company) existing)

Grows-trans : (n : ℕ) (s t u : Import) → Grows 1 s t → Grows n t u → Grows (suc n) s u
Grows-trans n s t u g h = record {
  rows = omega (arith, g.rows, h.rows);
  closes = omega (arith, g.closes, h.closes);
  revisions = omega (arith, g.revisions, h.revisions);
}

import_rows-Grows :
    (exchange : Exchange) (day file : ℕ) (existing : List Close) (qs : List Matched) (s : Import)
    → Grows (length qs) s (import_rows exchange day file existing qs s)
unfolding import_rows
import_rows-Grows exchange day file existing [] s = record {
  rows = omega arith;
  closes = refl;
  revisions = refl;
}
import_rows-Grows exchange day file existing (q ∷ qs) s =
    let t = import_row exchange day file existing q s in
    Grows-trans (length qs) s t _ (import_row-Grows exchange day file existing q s)
      (import_rows-Grows exchange day file existing qs t)

-- The version of a stored close that a row replaces: none where the row has a company's first close
-- of the day, or the values that the close has already.
abbrev pub version_of : Close → Revision
version_of c = record { company = c.company; file = c.file; values = c.values }

abbrev pub replaced_by : Matched → Option Close → List Revision
replaced_by q none = []
replaced_by q (some c) = if same_values c.values (values_of q.row) then [] else version_of c ∷ []

-- The versions that the rows of a file replace, the last one first.
abbrev pub replaced : Exchange → ℕ → List Close → List Matched → List Revision
replaced exchange day closes [] = []
replaced exchange day closes (q ∷ qs) =
    replaced exchange day closes qs
    ++ replaced_by q (first_where (is_close_of exchange day q.company) closes)

found_company :
    (exchange : Exchange) (day k : ℕ) (closes : List Close) (c : Close)
    → first_where (is_close_of exchange day k) closes ≡ some c
    → c.company ≡ k
found_company exchange day k [] c h = absurd (none-ne-some c h)
found_company exchange day k (d ∷ ds) c h = ground (arith, found_company exchange day k ds c)

store_row_revisions :
    (exchange : Exchange) (day file : ℕ) (q : Matched) (s : Import) (o : Option Close)
    → ((c : Close) → o ≡ some c → c.company ≡ q.company)
    → (store_row exchange day file q s o).revisions ≡ replaced_by q o ++ s.revisions
unfolding store_row
store_row_revisions exchange day file q s none k = refl
store_row_revisions exchange day file q s (some c) k =
    elim (Bool-cases (same_values c.values (values_of q.row))) [
      | inl same ↦ rw same refl
      | inr other ↦ rw (other, k c refl) refl
    ]

import_rows_revisions :
    (exchange : Exchange) (day file : ℕ) (closes : List Close) (qs : List Matched) (s : Import)
    → (import_rows exchange day file closes qs s).revisions
      ≡ replaced exchange day closes qs ++ s.revisions
unfolding import_rows import_row
import_rows_revisions exchange day file closes [] s = refl
import_rows_revisions exchange day file closes (q ∷ qs) s =
    let o = first_where (is_close_of exchange day q.company) closes in
    import_rows_revisions exchange day file closes qs (store_row exchange day file q s o)
    ∙ ap (λ r. replaced exchange day closes qs ++ r)
        (store_row_revisions exchange day file q s o (found_company exchange day q.company closes))
    ∙ sym (append_assoc (replaced exchange day closes qs) (replaced_by q o) s.revisions)

-- An import counts every matched row once, as inserted, updated or unchanged, and the table of closes
-- grows by the inserted rows alone. Before the revisions there were it puts, for each row whose
-- company has a close of the day with other values, the version of that close before the import:
-- its company, its values and the file that they came from; it adds no other revision.
pub import_keeps :
    (exchange : Exchange) (day file : ℕ) (closes : List Close) (revisions : List Revision)
    (qs : List Matched)
    → let t = import_rows exchange day file closes qs (new_import closes revisions) in
      Grows (length qs) (new_import closes revisions) t
      × (t.revisions ≡ replaced exchange day closes qs ++ revisions)
import_keeps exchange day file closes revisions qs = (
  import_rows-Grows exchange day file closes qs (new_import closes revisions),
  import_rows_revisions exchange day file closes qs (new_import closes revisions),
)
