-- ===== src/App.antt =====
-- mobile/src/features/app/AppDataContext.tsx: what the provider keeps of the tables and when it
-- uploads. `Uploads` is `pushLocalReceipts` in a run of the synchronisation effect, `Refreshes` is
-- `refreshDatabase`, `Background` the synchronisation after signing in.
pub mod Uploads
pub mod Refreshes
pub mod Background
mod Tests
