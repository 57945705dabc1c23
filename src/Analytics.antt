-- ===== src/Analytics.antt =====
-- mobile/src/analytics/: the preference and the queue of product analytics. `Service` is service.ts,
-- `Triggers` is triggers.ts; the other files have the proofs.
pub mod Service
pub mod Preference
pub mod Queue
pub mod Delivery
pub mod Consent
pub mod Triggers
mod Tests
