-- ===== src/Imports.antt =====
-- Imports of financial data by the API and by the demonstration provider.
pub mod Quarters
pub mod Maintained
pub mod Prices
pub mod Batch
mod Tests
