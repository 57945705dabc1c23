-- ===== src/Storage.antt =====
-- mobile/src/storage.ts over the tables of mobile/src/database/receiptQueries.ts.
-- The files below: `Database` has the tables and the statements, `Identity` the keys of receipts
-- and products, `Response` the provider's answers, `Operations` the exported functions, `Joined`
-- `loadJoinedItems`; the others
-- have the proofs.
pub mod Database
pub mod Identity
pub mod Response
pub mod Operations
pub mod Validity
pub mod Saving
pub mod Overrides
pub mod Joined
mod Tests
