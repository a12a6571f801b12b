-- ===== src/Lib.antt =====
-- MeraIPO: models of the program's decision-making Python code, with proofs.
--
-- The program is a web service with background workers on one database. A market worker takes up
-- import runs and publishes what the exchanges say about IPOs, prices and results; an email worker
-- sends alerts from an outbox; the API has the public routes (subscribe, confirm, unsubscribe), the
-- provider's webhook, and the administrator's routes. They interact through rows of the database.
--
-- Conventions. A table is a list of rows, a missing value `none`, an exception or a refusal a value.
-- Times are seconds, dates are ordinals, a wall clock is an ordinal and a minute of the day, and
-- identifiers, hashes and texts that are only compared are numbers. A transaction is one function.
--
-- Prelude            the shared names, Boolean tests, lists and tables (Prelude/Tests, Lists, Tables)
-- Ipo                packages/shared/ipo_lifecycle.py (`lifecycle`, `public_status`),
--                    `reconcile_lifecycle` of apps/worker/market.py and the tests `eligible_listing`
--                    and `eligible_opening` of packages/shared/email_template.py; Ipo/Progress has
--                    the proofs
-- Schedule/Slots     packages/shared/job_schedules.py; `next_slot` looks eight days ahead as the code
--                    does, which is enough for a weekly slot
-- Schedule/Saving    `save_schedule` of apps/api/job_routes.py
-- Schedule/Trading   packages/shared/market_freshness.py, `latest_trading_day` of
--                    apps/worker/exchange_pipeline.py (fifteen rounds, as in the code) and
--                    `trading_session` of packages/providers/bhavcopy.py; the search for the expected
--                    trading day runs on fuel of three rounds for each holiday and three more
-- Email/Rows         the rows of packages/database/models.py that the email code decides on
-- Email/Bands        packages/shared/email_preferences.py
-- Email/Events       `ingest_event` of apps/api/email_routes.py
-- Email/Review       the first half of `send_one` of apps/worker/email_alerts.py, `within_window`
--                    and `digest_is_current`
-- Email/Sending      its second half, `maintain_outbox` as to deliveries, `retry` of
--                    apps/api/email_admin.py
-- Email/Consent      `subscribe`, `action_row`, `confirm` and `do_unsubscribe` of
--                    apps/api/email_routes.py
-- Email/Race         one delivery with any number of workers, crashes, events and routes, as a step
--                    relation; the provider is assumed to have accepted a message whose identifier it
--                    returns and not to have accepted one that it refuses with a status below 500
-- Jobs               `claim_due` of apps/worker/scheduling.py, `acquire` and `create_run` of
--                    apps/worker/market.py, `run_pipeline` of apps/worker/exchange_pipeline.py (its
--                    transaction before the import and the one after it, whose commit may fail),
--                    `cancel_queued` of apps/api/job_routes.py, and in Jobs/Market the start and the
--                    end of `run_job`; Jobs/Actions has any sequence of them
-- Bhavcopy/Fields,   `parse` of packages/providers/bhavcopy.py, on lines whose fields are read as
-- Bhavcopy/Parse     digits and decimal places
-- Bhavcopy/Matching, `mappings`, `preview`, `import_file`, `refresh_summary` and, for one company,
-- Bhavcopy/Closes    `refresh_listing_prices` of apps/worker/bhavcopy.py
-- Bhavcopy/Source    its `process_source` and `sync`, less the refresh of the charts that follows an
--                    import; the download, the storage of originals and the checksum are given, and so
--                    is an error inside the savepoint, after any number of rows
--
-- Results/Store      `store_filing` and `publish` of apps/worker/results.py; Results/Store/Versions has
--                    what a reader of the current results sees
-- Results/Process    its `preview` and `process`; what a download gives and what the parser of XBRL says
--                    of an attachment are given
-- Results/Queue      the second half of its `sync`, which takes up the filings that wait; where its 35
--                    seconds run out, if they do, is given
-- Cache              apps/api/cache.py: any number of readers and the writers that hold the lock, with
--                    failures of Redis, as a step relation. A writer is assumed to be done before its
--                    lock and its marker run out, and the marker to outlive the entries that are older,
--                    as the code sets its time
-- Imports/Quarters   `add_quarter` of apps/api/services.py
-- Imports/Maintained `maintain_ipo` of apps/api/services.py, less the constraints of the tables
-- Imports/Prices     the summary of a company's prices in `ingest` of apps/worker/ingestion.py
-- Imports/Batch      `ingest` itself, with `add_gmp` of apps/api/services.py
-- Market/Match       `match_company` and `remember_identifiers` of apps/worker/market.py, with the
--                    constraints of the tables that the second can break
-- Market/Feed        the branches of prices and results of its `ingest_record`
-- Market/Subscribed  its branch of subscriptions, with the daily summary; an Indian date is that of the
--                    time, five and a half hours later
--
-- Not modelled: the read API and the web pages, the clients of the providers, the templates of the
-- messages and the parsing of filings and of CSV and ZIP files (input and output, or text handling);
-- and so far the other branches of `ingest_record`, the body of `run_job`, the collection and the
-- publication of exchange_pipeline.py, and the sessions of administrators.
--
-- Tests modules (Ipo/Tests and so on) evaluate the models and instantiate the theorems at concrete
-- inputs.
pub mod Prelude
pub mod Ipo
pub mod Schedule
pub mod Email
pub mod Jobs
pub mod Bhavcopy
pub mod Results
pub mod Cache
pub mod Imports
pub mod Market
