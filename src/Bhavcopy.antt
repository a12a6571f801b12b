-- ===== src/Bhavcopy.antt =====
-- The exchanges' end-of-day files, of packages/providers/bhavcopy.py and apps/worker/bhavcopy.py: the
-- lines, the file, the match with the companies, and the stored closes.
pub mod Fields
pub mod Parse
pub mod Matching
pub mod Closes
pub mod Source
mod Tests
