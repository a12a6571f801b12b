-- ===== src/Bhavcopy/Source/Retained.antt =====
-- When `process_source` of apps/worker/bhavcopy.py leaves the stored prices as they are.
use mathlib.Core.Bool.{false≢true}
use meraipo.Prelude.{
  if◌then◌else◌, sym, ◌∙◌, ℕ, ◌≡◌, inl, inr, refl, Bool, true, false, none, some, Option, List,
  arith, Bool-cases,
}
use meraipo.Schedule.Slots.{Exchange}
use meraipo.Bhavcopy.Matching.{Preview}
use meraipo.Bhavcopy.Closes.{Import}
use meraipo.Bhavcopy.Parse.{Scan, raised, scanned, parse}
use meraipo.Bhavcopy.Source.{
  File, Given, Tables, Decision, ends, fails, reads, decide, Processed, process_source,
  was_imported, is_complete, Failure, finish_import, savepoint, carry_out, store_parsed, no_errors,
  new_file, success, partial,
}

-- The prices are those there were.
abbrev pub IsRetained : Tables → Processed → Type 0
IsRetained db p = (p.tables.closes ≡ db.closes) × (p.tables.revisions ≡ db.revisions)

either_complete : (b : Bool) → is_complete (if b then success else partial) ≡ true
either_complete true = refl
either_complete false = refl

abbrev complete_after : Processed → Bool
complete_after p = is_complete p.file.status

-- A block that ends with an error leaves the tables as they were, whatever it had written.
finish_import-IsRetained :
    (stop : Option (ℕ × Failure)) (now : ℕ) (f : File) (found : Preview) (done : Import)
    (db inside : Tables)
    → complete_after (finish_import stop now f found done (savepoint stop db inside)) ≡ false
    → IsRetained db (finish_import stop now f found done (savepoint stop db inside))
finish_import-IsRetained none now f found done db inside h =
    absurd (false≢true (sym h ∙ either_complete (no_errors found.errors)))
finish_import-IsRetained (some (n, e)) now f found done db inside h = (refl, refl)

store_parsed-IsRetained :
    (g : Given) (exchange : Exchange) (day : ℕ) (f : File) (db : Tables) (s : Scan)
    → complete_after (store_parsed g exchange day f db s) ≡ false
    → IsRetained db (store_parsed g exchange day f db s)
store_parsed-IsRetained g exchange day f db (raised e) h = (refl, refl)
store_parsed-IsRetained g exchange day f db (scanned rows errors total) h =
    elim (Bool-cases g.storable) [
      | inl y ↦
          rw (store_parsed, y)
            (finish_import-IsRetained g.break_off g.now f _ _ db _ (rw (store_parsed, y) at h))
      | inr x ↦ rw x (refl, refl)
    ]

carry_out-IsRetained :
    (g : Given) (exchange : Exchange) (day : ℕ) (f : File) (db : Tables) (d : Decision)
    → complete_after (carry_out g exchange day f db d) ≡ false
    → IsRetained db (carry_out g exchange day f db d)
carry_out-IsRetained g exchange day f db (ends s r) h = (refl, refl)
carry_out-IsRetained g exchange day f db (fails e r) h = (refl, refl)
carry_out-IsRetained g exchange day f db (reads c) h =
    store_parsed-IsRetained g exchange day f db (parse c.columns exchange day c.lines) h

-- Where a file does not end as imported, in whole or in part, the closes and their revisions are
-- those there were, whatever the reason: a guard, the download, a file that is refused, or an error
-- after some rows were already written.
pub process_source-IsRetained :
    (g : Given) (id : ℕ) (exchange : Exchange) (day : ℕ) (db : Tables)
    → is_complete (process_source g id exchange day db).file.status ≡ false
    → IsRetained db (process_source g id exchange day db)
unfolding process_source
process_source-IsRetained g id exchange day db h =
    carry_out-IsRetained g exchange day (new_file id exchange day) db
      (decide g exchange day db.files) h

abbrev reads_file : Decision → Bool
reads_file (reads c) = true
reads_file _ = false

decide_again :
    (g : Given) (exchange : Exchange) (day : ℕ) (files : List File)
    → g.scheduled ≡ true
    → g.upload ≡ none
    → was_imported exchange day files ≡ true
    → reads_file (decide g exchange day files) ≡ false
unfolding decide
decide_again g exchange day files s u w = ground arith

carry_out_unread :
    (g : Given) (exchange : Exchange) (day : ℕ) (f : File) (db : Tables) (d : Decision)
    → reads_file d ≡ false
    → IsRetained db (carry_out g exchange day f db d)
carry_out_unread g exchange day f db (ends s r) h = (refl, refl)
carry_out_unread g exchange day f db (fails e r) h = (refl, refl)
carry_out_unread g exchange day f db (reads c) h = absurd (false≢true (sym h))

-- A scheduled run without an upload leaves the prices of a day and exchange alone that were
-- imported before, whatever the provider would answer.
pub scheduled_source_once :
    (g : Given) (id : ℕ) (exchange : Exchange) (day : ℕ) (db : Tables)
    → g.scheduled ≡ true
    → g.upload ≡ none
    → was_imported exchange day db.files ≡ true
    → IsRetained db (process_source g id exchange day db)
unfolding process_source
scheduled_source_once g id exchange day db s u w =
    carry_out_unread g exchange day (new_file id exchange day) db (decide g exchange day db.files)
      (decide_again g exchange day db.files s u w)
