-- ===== src/Schedule.antt =====
-- When the operational jobs run: packages/shared/job_schedules.py, packages/shared/market_freshness.py
-- and the trading-day search of apps/worker/exchange_pipeline.py, over an Indian wall clock.
pub mod Clock
pub mod Slots
pub mod Trading
pub mod Saving
mod Tests
