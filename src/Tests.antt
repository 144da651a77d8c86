-- ===== src/Tests.antt =====
-- Runs of the model on concrete inputs, and the theorems at such inputs.
pub mod Reports
pub mod Index
pub mod Archive
pub mod Pdfs
pub mod Ptrs
pub mod Amendments
pub mod Transcribed
pub mod Scan
pub mod Politicians
pub mod Drain
pub mod Tickers
pub mod Senate
pub mod SenatePtrs
pub mod SenateIndex
pub mod Annual
pub mod AnnualRun
pub mod Community
pub mod Reparse
pub mod Backfill
pub mod Official
pub mod Rearchive
pub mod Messages
