-- ===== src/Results/Process.antt =====
-- `preview` and `process` of apps/worker/results.py: the attachments of a filing. What a download gives
-- and what the parser of XBRL says of it are given; the events that a run logs are left out.
pub mod Settled
use meraipo.Prelude.{
  ℕ, ◌+◌, ◌*◌, ◌^◌, Bool, true, false, not, ◌&&◌, Option, none, some, List, [], ◌∷◌, if◌then◌else◌,
  min, or_else,
}
use meraipo.Results.Store.{
  Result, Filing, FilingStatus, awaiting_processing, published, parsing_review_required,
  download_retry, FilingError, link_required, mapping_required, sector_review_required,
  source_error, other_error, Item, Attempt, raised, returned, ◌>>=◌, Published, publish,
}

-- An attachment: whether it is XML, and what the parser makes of it for the filing's company.
pub record Content : Type 0 where
  pub xml : Bool
  pub parsed : Attempt (List Item)

-- A link of the filing: its stored attachment, or what downloading and storing it gives, with the time
-- that a rate limit asks to wait for.
pub record Link : Type 0 where
  pub stored : Option Content
  pub download : Attempt Content
  pub retry_after : Option ℕ

pub record Work : Type 0 where
  pub filing : Filing
  pub results : List Result
  pub downloaded : ℕ
  pub parsed : ℕ
  pub published : ℕ
  pub failed : ℕ
  pub parsed_any : Bool

abbrev is_source_error : FilingError → Bool
is_source_error (source_error k) = true
is_source_error _ = false

abbrev pub is_awaiting : FilingStatus → Bool
is_awaiting awaiting_processing = true
is_awaiting _ = false

-- `preview`; `restricted` says of a company that it is a bank, a lender or an insurer.
unfoldable pub preview : (ℕ → Bool) → Filing → Content → Attempt (List Item)
preview restricted f c = elim f.company [
  | none ↦ raised mapping_required
  | some k ↦ if restricted k then raised sector_review_required else c.parsed
]

-- `timedelta(hours=min(24, 2 ** min(attempts, 4)))`, in seconds.
abbrev pub delay : ℕ → ℕ
delay attempts = min 24 (2 ^ min attempts 4) * 3600

abbrev pub fail : ℕ → Option ℕ → FilingError → Work → Work
fail now retry e w = record w {
  filing = record w.filing {
    error = some e;
    status = if is_source_error e then download_retry else parsing_review_required;
    retry_at = or_else retry (some (now + delay w.filing.attempts));
  };
  failed = w.failed + 1;
}

abbrev pub content_of : Link → Attempt Content
content_of l = elim l.stored [ none ↦ l.download | some c ↦ returned c ]

-- `counts["downloaded"] += int(existing is None)`
abbrev pub count_download : Option Content → Work → Work
count_download none w = record w { downloaded = w.downloaded + 1 }
count_download (some c) w = w

abbrev pub count_published : Published → Work → Work
count_published q w = record w {
  filing = record w.filing { status = published; error = none };
  results = q.results;
  published = w.published + q.count;
  parsed = w.parsed + 1;
  parsed_any = true;
}

-- Whether the loop breaks, and the work after the link.
abbrev pub finish_link : ℕ → Option ℕ → Work → Attempt Published → Bool × Work
finish_link now retry w (raised e) = (true, fail now retry e w)
finish_link now retry w (returned q) = (false, count_published q w)

unfoldable pub read_content :
    (ℕ → Bool) → List Filing → ℕ → Link → Work → Attempt Content → Bool × Work
read_content restricted filings now l w (raised e) = (true, fail now l.retry_after e w)
read_content restricted filings now l w (returned c) =
    if not c.xml
    then (false, count_download l.stored w)
    else finish_link now l.retry_after (count_download l.stored w)
        (preview restricted w.filing c >>= (λ items. publish filings w.filing items w.results))

unfoldable pub process_links : (ℕ → Bool) → List Filing → ℕ → List Link → Work → Work
process_links restricted filings now [] w = w
process_links restricted filings now (l ∷ ls) w =
    let turn = read_content restricted filings now l w (content_of l) in
    let rest = process_links restricted filings now ls turn.1 in if turn.0 then turn.1 else rest

-- The test after the loop.
abbrev pub conclude : Work → Work
conclude w =
    if not w.parsed_any && is_awaiting w.filing.status
    then record w { filing = record w.filing { status = parsing_review_required } }
    else w

abbrev pub start_work : Filing → List Result → Work
start_work f results = record {
  filing = f;
  results = results;
  downloaded = 0;
  parsed = 0;
  published = 0;
  failed = 0;
  parsed_any = false;
}

-- `process`, with what it adds to the counts.
unfoldable pub process : (ℕ → Bool) → List Filing → ℕ → Filing → List Link → List Result → Work
process restricted filings now f [] results =
    start_work (record f { status = parsing_review_required; error = some link_required }) results
process restricted filings now f (l ∷ ls) results = conclude (
    process_links restricted filings now (l ∷ ls)
      (start_work (record f { attempts = f.attempts + 1 }) results))
