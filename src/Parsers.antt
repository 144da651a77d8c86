-- ===== src/Parsers.antt =====
-- The parsers (src/congress_collector/parsers): amounts, House and Senate reports, checks of scans,
-- and the matching of names and tickers.
pub mod Amounts
pub mod HousePtr
pub mod HouseFd
pub mod SenatePtr
pub mod Scan
pub mod PoliticianMatch
pub mod TickerMatch
