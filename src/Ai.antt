-- ===== src/Ai.antt =====
-- mobile/src/ai/: the reports of the assistant. `Types` is types.ts, `Sections` the reading of the
-- server's sections and `Service` the request in llmService.ts, `Reports` is storage.ts over the statements of
-- reportQueries.ts; the files below them have the proofs.
pub mod Types
pub mod Sections
pub mod Reports
pub mod Service
mod Tests
