-- ===== src/Sales.antt =====
-- The rules of B2B sales, backend/src/modules/business/domain/sales-rules.ts.
pub mod Transition
pub mod Contact
pub mod Pilot
pub mod Tasks
pub mod Import
pub mod Drafts
