-- ===== src/Results/Tests.antt =====
-- Two companies' results: a filing that revises the first's and a filing without XML.
use meraipo.Prelude.{
  ◌==◌, if◌then◌else◌, ℕ, Bool, false, arith, ◌≡◌, refl, true, none, some, [], ◌∷◌, List,
}
use meraipo.Schedule.Slots.{nse}
use meraipo.Results.Store.{
  Period, Result, Filing, awaiting_processing, download_retry, Item, source_error, raised, returned,
  publish, publish_items, publish_over,
}
use meraipo.Results.Store.Versions.{IsVersioned}
use meraipo.Results.Store.Refined.{RefinesAll, publish_refines}
use meraipo.Results.Process.{Link, process}
use meraipo.Results.Process.Settled.{process_opaque}
use meraipo.Results.Queue.{Queue}

abbrev june : Period
june = record { company = 1; period_start = 10; period_end = 100; period_type = 0; basis = 0 }

abbrev old_filing : Filing
old_filing = record {
  id = 5;
  exchange = nse;
  identity = 77;
  company = some 1;
  announced_at = some 200;
  status = awaiting_processing;
  error = none;
  attempts = 0;
  retry_at = none;
}

abbrev new_filing : Filing
new_filing = record old_filing { id = 6; identity = 78; announced_at = some 300 }

abbrev first_result : Result
first_result = record {
  period = june;
  filing = 5;
  revision = 1;
  current = true;
  facts = 9;
  provenance = 5 ∷ [];
}

abbrev revised : List Item
revised = record { period = june; facts = 11 } ∷ []

one-IsVersioned : IsVersioned (first_result ∷ [])
one-IsVersioned k = ground arith

abbrev retired_result : Result
retired_result = record first_result { current = false }

abbrev next_result : Result
next_result = record first_result { filing = 6; revision = 2; facts = 11; provenance = 6 ∷ [] }

publish_run :
    publish (old_filing ∷ []) new_filing revised (first_result ∷ [])
    ≡ returned (record { results = retired_result ∷ next_result ∷ []; count = 1 })
unfolding publish publish_items publish_over
publish_run = refl

publish_refines_example : RefinesAll revised (first_result ∷ []) (retired_result ∷ next_result ∷ [])
publish_refines_example =
    publish_refines (old_filing ∷ []) new_filing revised (first_result ∷ [])
      (record { results = retired_result ∷ next_result ∷ []; count = 1 }) one-IsVersioned
      publish_run

-- A link whose download gives XML with new facts, and one whose attachment is at hand and is no XML.
abbrev xml_link : Link
xml_link = record {
  stored = none;
  download = returned (record { xml = true; parsed = returned revised });
  retry_after = none;
}

abbrev pdf_link : Link
pdf_link = record {
  stored = some (record { xml = false; parsed = returned [] });
  download = raised (source_error 1);
  retry_after = none;
}

abbrev all_served : ℕ → Bool
all_served k = false

-- The attachments of the filing 6; the other filings have none.
abbrev links : ℕ → List Link
links k = if k == 6 then pdf_link ∷ xml_link ∷ [] else []

abbrev queue : Queue
queue = record {
  filings = old_filing ∷ new_filing ∷ [];
  results = first_result ∷ [];
  published = 0;
  failed = 0;
  review_required = 0;
}

abbrev failed_filing : Filing
failed_filing = record old_filing {
  status = download_retry;
  error = some (source_error 1);
  attempts = 1;
  retry_at = some 350;
}

process_opaque_example :
    (process all_served [] 400 failed_filing (pdf_link ∷ []) []).filing
    ≡ record failed_filing { attempts = 2 }
process_opaque_example = process_opaque all_served [] 400 failed_filing pdf_link [] [] refl refl
