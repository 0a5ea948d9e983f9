-- ===== src/Finance.antt =====
-- Money of the business module: the obligations and the receipts that settle them, and the
-- forecast (backend/src/modules/business). Amounts are whole numbers, as in the database; that a
-- column holds at most 2^31 - 1 is the database's check and not modelled. Identifiers are numbers.
pub mod Receipts
pub mod Forecast
