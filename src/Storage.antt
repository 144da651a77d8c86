-- ===== src/Storage.antt =====
-- The raw archive and its budget (src/congress_collector/storage).
pub mod Bucket
pub mod Quota
