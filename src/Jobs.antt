-- ===== src/Jobs.antt =====
-- The import runs and the writer's lease, of apps/worker/scheduling.py, apps/worker/market.py,
-- apps/worker/exchange_pipeline.py and apps/api/job_routes.py: the rows, the operations on them, any
-- sequence of operations, and what holds of them.
pub mod Board
pub mod Due
pub mod Pipeline
pub mod Actions
pub mod Market
pub mod Begin
pub mod Order
pub mod Writer
pub mod Ends
pub mod Keys
pub mod Again
mod Tests
