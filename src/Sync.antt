-- ===== src/Sync.antt =====
-- mobile/src/api/sync.ts: what the device and the server tell one another of receipts. `Ids` is the
-- sets of identifiers on the device, `Deletions` the queue of deletions, `Pull` the download, and
-- `Upload` the upload; `Reports` is the download of reports. The other files have the proofs.
pub mod Ids
pub mod Deletions
pub mod Pull
pub mod Upload
pub mod Reports
mod Tests
