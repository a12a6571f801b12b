-- ===== src/Bhavcopy/Tests.antt =====
-- Tests and instances of packages/providers/bhavcopy.py and apps/worker/bhavcopy.py at a small file.
use meraipo.Prelude.{ℕ, ◌+◌, ◌≡◌, refl, true, false, none, some, List, [], ◌∷◌, length, All}
use meraipo.Schedule.Slots.{nse}
use meraipo.Bhavcopy.Fields.{Line, Row, Reject, decimal, blank, eq_series, Field}
use meraipo.Bhavcopy.Parse.{parse}
use meraipo.Bhavcopy.Parse.Unique.{rows_of, is_scanned, IsAlone, parse_unique}
use meraipo.Bhavcopy.Matching.{Company, preview, Matched}
use meraipo.Bhavcopy.Matching.Counted.{preview_conserves}
use meraipo.Bhavcopy.Closes.{
  Close, Snapshot, empty_snapshot, new_import, import_rows, refresh_summary, values_of,
  same_exchange, shows_other,
}
use meraipo.Bhavcopy.Source.{
  Given, storage_error, Tables, downloaded, success, is_complete, process_source,
}
use meraipo.Bhavcopy.Source.Retained.{IsRetained, process_source-IsRetained, scheduled_source_once}
use meraipo.Bhavcopy.Closes.Kept.{Grows, version_of, import_keeps}
use meraipo.Bhavcopy.Closes.Summary.{Shows, own_closes, refresh_summary-Shows}

-- A line of day 20 on the NSE, for a security and its closing price.
abbrev line_of : ℕ → Field → Line
line_of isin close = record {
  intact = true;
  trade_date = some 20;
  source = some nse;
  cash_market = true;
  isin = isin;
  isin_valid = true;
  symbol = isin + 100;
  security_id = some 3;
  series = eq_series;
  stock = true;
  first_session = true;
  opening = blank;
  high = decimal 125 1;
  low = decimal 115 1;
  close = close;
  previous_close = blank;
  volume = decimal 7 0;
}

-- Security 1 twice, security 2 once, and security 3 with a close above its highest price.
abbrev lines : List Line
lines =
    line_of 1 (decimal 12 0)
    ∷ line_of 2 (decimal 12 0)
    ∷ line_of 1 (decimal 121 1)
    ∷ line_of 3 (decimal 13 0)
    ∷ []

abbrev row : Row
row = record {
  line = 3;
  isin = 2;
  symbol = 102;
  security_id = 3;
  series = eq_series;
  prices = record {
    opening = none;
    high = some 125000;
    low = some 115000;
    close = 120000;
    previous_close = none;
    volume = some 7;
  };
}

accepted_rows : rows_of (parse true nse 20 lines) ≡ row ∷ []
unfolding parse meraipo.Bhavcopy.Parse.scan_lines meraipo.Bhavcopy.Parse.file_error
    meraipo.Bhavcopy.Fields.judge meraipo.Bhavcopy.Fields.read_price
    meraipo.Bhavcopy.Fields.read_volume
accepted_rows = refl

file_accepted : is_scanned (parse true nse 20 lines) ≡ true
unfolding parse meraipo.Bhavcopy.Parse.scan_lines meraipo.Bhavcopy.Parse.file_error
    meraipo.Bhavcopy.Fields.judge meraipo.Bhavcopy.Fields.read_price
    meraipo.Bhavcopy.Fields.read_volume
file_accepted = refl

parse_unique_example :
    All (IsAlone (rows_of (parse true nse 20 lines))) (rows_of (parse true nse 20 lines))
parse_unique_example = parse_unique true nse 20 lines

abbrev companies : List Company
companies =
    record { id = 50; isin = some 2; listed = true; is_demo = false }
    ∷ record { id = 51; isin = some 9; listed = true; is_demo = false }
    ∷ []

preview_conserves_example :
    length (preview nse companies [] (row ∷ []) [] 4).matched
      + (preview nse companies [] (row ∷ []) [] 4).unmatched
      + length (preview nse companies [] (row ∷ []) [] 4).errors
    ≡ 1
preview_conserves_example = preview_conserves nse companies [] (row ∷ []) [] 4

abbrev rows : List Matched
rows = record { company = 50; row = row } ∷ []

abbrev close : Close
close = record { company = 50; exchange = nse; trade_date = 20; values = values_of row; file = 8 }

-- The close as an earlier file had it.
abbrev early_close : Close
early_close = record close {
  file = 7;
  values = record close.values { prices = record close.values.prices { volume = some 1 } };
}

import_keeps_example :
    let t = import_rows nse 20 8 (early_close ∷ []) rows (new_import (early_close ∷ []) []) in
    Grows 1 (new_import (early_close ∷ []) []) t × (t.revisions ≡ version_of early_close ∷ [])
import_keeps_example = import_keeps nse 20 8 (early_close ∷ []) [] rows

abbrev chart : Snapshot
chart = record {
  cmp = some 120000;
  ath = some 125000;
  high_52w = some 125000;
  low_52w = some 115000;
  price_date = some 20;
  closing_exchange = some nse;
  previous_close = none;
}

refreshed : refresh_summary nse 50 (close ∷ []) (some chart) ≡ some chart
unfolding refresh_summary meraipo.Bhavcopy.Closes.summarise
refreshed = refl

refresh_summary-Shows_example : Shows chart (own_closes nse 50 (close ∷ []))
refresh_summary-Shows_example = refresh_summary-Shows nse 50 (close ∷ []) chart chart refl refreshed

-- A scheduled run for day 20, a Saturday without a special session; and one for day 22.
abbrev given : Given
given = record {
  now = 9000;
  scheduled = true;
  upload = none;
  source = record {
    enabled = true;
    valid_url = true;
    calendar = record {
      calendar_year = 1;
      calendar_source = true;
      holidays = [];
      special_sessions = [];
    };
  };
  answer = downloaded (record { columns = true; lines = lines });
  storable = true;
  break_off = none;
}

abbrev tables : Tables
tables = record {
  files =
      record {
        id = 8;
        exchange = nse;
        trade_date = 22;
        status = success;
        error = none;
        retry_at = none;
        imported_at = some 8000;
      }
      ∷ [];
  closes = close ∷ [];
  revisions = [];
  companies = companies;
  identifiers = [];
}

-- An upload of the day's file whose import breaks off after the first row.
abbrev broken_off : Given
broken_off = record given {
  upload = some (record {
    available = true;
    same_checksum = true;
    content = record { columns = true; lines = lines };
  });
  break_off = some (1, storage_error);
}

not_imported : is_complete (process_source broken_off 9 nse 20 tables).file.status ≡ false
unfolding process_source meraipo.Bhavcopy.Source.decide meraipo.Bhavcopy.Source.import_file
    meraipo.Bhavcopy.Parse.parse meraipo.Bhavcopy.Parse.scan_lines meraipo.Bhavcopy.Parse.file_error
    meraipo.Bhavcopy.Fields.judge meraipo.Bhavcopy.Fields.read_price
    meraipo.Bhavcopy.Fields.read_volume
not_imported = refl

process_source-IsRetained_example : IsRetained tables (process_source broken_off 9 nse 20 tables)
process_source-IsRetained_example =
    process_source-IsRetained broken_off 9 nse 20 tables not_imported

scheduled_source_once_example : IsRetained tables (process_source given 9 nse 22 tables)
scheduled_source_once_example = scheduled_source_once given 9 nse 22 tables refl refl refl
