-- ===== src/Ingest.antt =====
-- The ingestion steps (src/congress_collector/ingest) over the tables of `Db`.
pub mod Index
pub mod House
pub mod Senate
pub mod CommunityArchive
pub mod Messages
pub mod OfficialBackfill
pub mod BackfillHouseReparse
pub mod ReparseFailedHousePtrs
pub mod HousePdfs
pub mod HousePtrs
pub mod HouseFds
pub mod Amendments
pub mod TranscribedPtrs
pub mod PoliticianLinks
pub mod CatchUp
pub mod Tickers
pub mod SenatePtrs
