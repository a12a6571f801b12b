-- ===== src/Bhavcopy/Source.antt =====
-- `process_source` and `sync` of apps/worker/bhavcopy.py: the guards before a file is downloaded, and
-- what is stored of it. The download, the storage of originals and the checksum are those of other
-- code; a run is given their answers.
pub mod Retained
use meraipo.Prelude.{
  ℕ, ◌+◌, Bool, true, false, not, ◌&&◌, ◌||◌, Option, none, some, List, [], ◌∷◌, ◌++◌, ltb, ◌==◌,
  if◌then◌else◌, any_of, length, is_some, holds_of, take,
}
use meraipo.Schedule.Slots.{Exchange}
use meraipo.Schedule.Trading.{Calendar, trading_session}
use meraipo.Jobs.Board.{Counts}
use meraipo.Bhavcopy.Fields.{Line, Row, Reject}
use meraipo.Bhavcopy.Parse.{FileError, Scan, raised, scanned, parse}
use meraipo.Bhavcopy.Matching.{Matched, Company, Identifier, Preview, preview}
use meraipo.Bhavcopy.Closes.{Close, Revision, Import, new_import, import_rows, same_exchange}

pub data FileStatus : Type 0 where
  started disabled rate_limited not_a_session blocked already_imported failed success partial :
      FileStatus

pub data Failure : Type 0 where
  upload_not_available upload_checksum_mismatch invalid_url calendar_required source_access_blocked
        rate_limit storage_error other_failure :
      Failure
  refused_file : FileError → Failure

-- A row of `BhavcopyFile`.
pub record File : Type 0 where
  pub id : ℕ
  pub exchange : Exchange
  pub trade_date : ℕ
  pub status : FileStatus
  pub error : Option Failure
  pub retry_at : Option ℕ
  pub imported_at : Option ℕ

-- The text of a file, read as CSV: whether its header has the columns, and its lines.
pub record Content : Type 0 where
  pub columns : Bool
  pub lines : List Line

pub data Download : Type 0 where
  downloaded : Content → Download
  limited : ℕ → Download
  broken : Failure → Download

-- An administrator's upload, as the checks on the saved file find it.
pub record Upload : Type 0 where
  pub available : Bool
  pub same_checksum : Bool
  pub content : Content

pub record Source : Type 0 where
  pub enabled : Bool
  pub valid_url : Bool
  pub calendar : Calendar

-- What a run is given: the clock, whether the scheduler started it, an upload if it is for one, the
-- source, the provider's answer, whether the original can be stored, and, where storing the closes
-- raises an error, after how many rows and which error.
pub record Given : Type 0 where
  pub now : ℕ
  pub scheduled : Bool
  pub upload : Option Upload
  pub source : Source
  pub answer : Download
  pub storable : Bool
  pub break_off : Option (ℕ × Failure)

pub record Tables : Type 0 where
  pub files : List File
  pub closes : List Close
  pub revisions : List Revision
  pub companies : List Company
  pub identifiers : List Identifier

abbrev new_file : ℕ → Exchange → ℕ → File
new_file id exchange day = record {
  id = id;
  exchange = exchange;
  trade_date = day;
  status = started;
  error = none;
  retry_at = none;
  imported_at = none;
}

abbrev pub is_complete : FileStatus → Bool
is_complete success = true
is_complete partial = true
is_complete _ = false

abbrev is_blocked : Option Failure → Bool
is_blocked (some source_access_blocked) = true
is_blocked _ = false

abbrev pub of_day : Exchange → ℕ → File → Bool
of_day exchange day f = same_exchange f.exchange exchange && f.trade_date == day

abbrev pub was_imported : Exchange → ℕ → List File → Bool
was_imported exchange day =
    any_of (λ f. of_day exchange day f && (is_complete f.status && is_some f.imported_at))

abbrev was_blocked : Exchange → ℕ → List File → Bool
was_blocked exchange day = any_of (λ f. of_day exchange day f && is_blocked f.error)

-- `max(retry_at)` of an exchange's files is later than a time; `waits_until` is that maximum.
abbrev latest_retry : Exchange → List File → Option ℕ
latest_retry exchange [] = none
latest_retry exchange (f ∷ fs) =
    let rest = latest_retry exchange fs in
    if same_exchange f.exchange exchange
    then elim f.retry_at [
      | none ↦ rest
      | some t ↦ elim rest [ none ↦ some t | some u ↦ some (if ltb t u then u else t) ]
    ]
    else rest

-- What the guards decide: to end with a status, to fail, or to go on with a content.
pub data Decision : Type 0 where
  ends : FileStatus → Option ℕ → Decision
  fails : Failure → Option ℕ → Decision
  reads : Content → Decision

abbrev of_upload : Upload → Decision
of_upload u =
    if not u.available
    then fails upload_not_available none
    else if not u.same_checksum
    then fails upload_checksum_mismatch none
    else reads u.content

abbrev of_download : Download → Decision
of_download (downloaded c) = reads c
of_download (limited t) = fails rate_limit (some t)
of_download (broken e) = fails e none

-- The guards of a scheduled run, then the download.
abbrev unless_done : Bool → Bool → Bool → Download → Decision
unless_done scheduled blocked_before imported answer =
    if scheduled && blocked_before
    then ends blocked none
    else if scheduled && imported
    then ends already_imported none
    else of_download answer

unfoldable pub decide : Given → Exchange → ℕ → List File → Decision
decide g exchange day files = elim g.upload [
  | some u ↦ of_upload u
  | none ↦
      if not g.source.enabled
      then ends disabled none
      else if not g.source.valid_url
      then fails invalid_url none
      else if holds_of (latest_retry exchange files) (λ t. ltb g.now t)
      then ends rate_limited (latest_retry exchange files)
      else elim (trading_session day g.source.calendar) [
        | none ↦ fails calendar_required none
        | some open_day ↦
            if not open_day
            then ends not_a_session none
            else unless_done g.scheduled (was_blocked exchange day files)
                (was_imported exchange day files) g.answer
      ]
]

-- The tables with the file's row, and the counters of its import.
pub record Processed : Type 0 where
  pub tables : Tables
  pub file : File
  pub found : Preview
  pub done : Import

abbrev no_preview : Preview
no_preview = record { matched = []; errors = []; total = 0; unmatched = 0 }

abbrev end_with : Tables → File → Processed
end_with db f = record {
  tables = record db { files = db.files ++ f ∷ [] };
  file = f;
  found = no_preview;
  done = new_import db.closes db.revisions;
}

abbrev no_errors : List Reject → Bool
no_errors [] = true
no_errors (r ∷ rs) = false

-- The rows of a file that are stored before an error ends the loop, if one does.
abbrev rows_before : Option (ℕ × Failure) → List Matched → List Matched
rows_before none qs = qs
rows_before (some (n, e)) qs = take n qs

-- `import_file`: the closes and the revisions as they are written, also those before an error.
unfoldable pub import_file : Option (ℕ × Failure) → Exchange → ℕ → File → Preview → Tables → Import
import_file stop exchange day f found db =
    import_rows exchange day f.id db.closes (rows_before stop found.matched)
      (new_import db.closes db.revisions)

abbrev written : Tables → Import → Tables
written db done = record db { closes = done.closes; revisions = done.revisions }

-- `begin_nested`: what is written stays, unless an error leaves the block; then the tables are those
-- at its beginning.
abbrev pub savepoint : Option (ℕ × Failure) → Tables → Tables → Tables
savepoint none before inside = inside
savepoint (some e) before inside = before

-- The file's row at the end of `import_file`.
abbrev imported : ℕ → Preview → File → File
imported now found f = record f {
  status = if no_errors found.errors then success else partial;
  imported_at = some now;
}

-- The block of the savepoint and what follows it. An error leaves the file without counters.
abbrev pub finish_import : Option (ℕ × Failure) → ℕ → File → Preview → Import → Tables → Processed
finish_import none now f found done db = record {
  tables = record db { files = db.files ++ imported now found f ∷ [] };
  file = imported now found f;
  found = found;
  done = done;
}
finish_import (some (n, e)) now f found done db =
    end_with db (record f { status = failed; error = some e })

abbrev pub store_scan :
    Given → Exchange → ℕ → File → Tables → List Row → List Reject → ℕ → Processed
store_scan g exchange day f db rows errors total =
    let found = preview exchange db.companies db.identifiers rows errors total in
    let done = import_file g.break_off exchange day f found db in
    finish_import g.break_off g.now f found done (savepoint g.break_off db (written db done))

abbrev pub store_parsed : Given → Exchange → ℕ → File → Tables → Scan → Processed
store_parsed g exchange day f db (raised e) =
    end_with db (record f { status = failed; error = some (refused_file e) })
store_parsed g exchange day f db (scanned rows errors total) =
    if g.storable
    then store_scan g exchange day f db rows errors total
    else end_with db (record f { status = failed; error = some storage_error })

abbrev pub carry_out : Given → Exchange → ℕ → File → Tables → Decision → Processed
carry_out g exchange day f db (ends s retry) =
    end_with db (record f { status = s; retry_at = retry })
carry_out g exchange day f db (fails e retry) =
    end_with db (record f { status = failed; error = some e; retry_at = retry })
carry_out g exchange day f db (reads c) =
    store_parsed g exchange day f db (parse c.columns exchange day c.lines)

unfoldable pub process_source : Given → ℕ → Exchange → ℕ → Tables → Processed
process_source g id exchange day db =
    carry_out g exchange day (new_file id exchange day) db (decide g exchange day db.files)

abbrev is_postponed : FileStatus → Bool
is_postponed rate_limited = true
is_postponed blocked = true
is_postponed _ = false

abbrev is_failed : FileStatus → Bool
is_failed failed = true
is_failed _ = false

abbrev one_if : Bool → ℕ
one_if true = 1
one_if false = 0

-- What `sync` adds to the run's counts for one file.
unfoldable pub add_counts : Processed → Counts → Counts
add_counts p c = record {
  fetched = c.fetched + p.found.total;
  written = c.written + (p.done.inserted + p.done.updated);
  unchanged = c.unchanged + p.done.unchanged;
  failed =
      c.failed
      + one_if (is_postponed p.file.status)
      + (one_if (is_failed p.file.status) + length p.found.errors);
  providers = c.providers + one_if (is_some p.file.imported_at);
}

-- `sync`, over the exchanges with what each is given and its file's identifier; `none` is the refusal
-- of a day that is yet to come.
sync_all : ℕ → List (Exchange × (ℕ × Given)) → Tables → Counts → Tables × Counts
unfolding process_source add_counts
sync_all day [] db c = (db, c)
sync_all day ((exchange, (id, g)) ∷ rest) db c =
    let p = process_source g id exchange day db in sync_all day rest p.tables (add_counts p c)

unfoldable pub sync :
    ℕ → ℕ → List (Exchange × (ℕ × Given)) → Tables → Counts → Option (Tables × Counts)
unfolding sync_all
sync today day exchanges db c = if ltb today day then none else some (sync_all day exchanges db c)
