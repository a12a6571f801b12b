-- ===== src/Results.antt =====
-- The quarterly results of apps/worker/results.py: filings, the versions of results, the processing of
-- a filing's attachments.
pub mod Store
pub mod Process
pub mod Queue
mod Tests
