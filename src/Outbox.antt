-- ===== src/Outbox.antt =====
-- The task outbox, backend/src/outbox: `Store` is the table and its statements (store.ts), `Retry`
-- the retry policy (retry-policy.ts), `Drain` one pass over the table (drain.ts).
pub mod Store
pub mod Retry
pub mod Drain
