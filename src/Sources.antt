-- ===== src/Sources.antt =====
-- The sources (src/congress_collector/sources): the records that the collector reads.
pub mod House
pub mod Senate
pub mod CommunityArchive
