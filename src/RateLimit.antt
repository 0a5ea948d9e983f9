-- ===== src/RateLimit.antt =====
-- Rate limits, backend/src/rate-limit: the counters of one process (memory-store.ts) and the
-- counters in the database (database-store.ts). Keys are only compared, so they are numbers; times
-- are milliseconds.
pub mod Memory
pub mod Database
