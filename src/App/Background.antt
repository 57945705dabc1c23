-- ===== src/App/Background.antt =====
-- The synchronisation after signing in, of mobile/src/features/app/AppDataContext.tsx: the parts of
-- api/sync.ts, the tables and the reports, one after the other.
pub mod Untouched
pub mod Deleted
use foodler.Common.{ℕ, Bool, true, false, Option, none, some, List, [], ◌∷◌, select, ◌≡◌, refl}
use foodler.Text.{Text, text_eq, Locale}
use foodler.Json.{Json}
use foodler.Receipts.{Numbers, Receipt, ReceiptItem}
use foodler.ReceiptChanges.{begin_batch, end_batch}
use foodler.Storage.Operations.{Local, save_receipt}
use foodler.Ai.Reports.{init_ai_reports_table}
use foodler.Sync.Ids.{Answer, Reply, SyncState}
use foodler.Sync.Deletions.{sync_pending_receipt_deletions}
use foodler.Sync.Upload.{ReceiptCreate, sync_all_local_receipts_bulk}
use foodler.Sync.Pull.{ServerReceipt, Pulled, pull_server_receipts}
use foodler.Sync.Reports.{ServerReport, ReportStore, sync_ai_reports}

-- What the device stores.
pub record Client (N : Type 0) : Type 0 where
  pub local : Local N
  pub sync : SyncState
  pub reports : ReportStore

-- The token, and the answers of the server to each request.
pub record Server (N : Type 0) : Type 0 where
  pub token : Option Text
  pub deletion : Text → Reply
  pub single : ReceiptCreate N → Reply
  pub bulk : List (ReceiptCreate N) → Reply
  pub page : ℕ → Answer (List (ServerReceipt N))
  pub history : Answer (List ServerReport)

-- JSON, dates, the clock and made-up identifiers.
pub record Runtime : Type 0 where
  pub parse : Text → Option Json
  pub stringify : Json → Text
  pub show : Json → Text
  pub datetime : Text → Option Text
  pub now_text : Text
  pub now : ℕ
  pub clock : ℕ → ℕ
  pub fresh : ℕ → Text

module _ {N : Type 0} (locale : Locale) (num : Numbers N) (run : Runtime) where
  -- The loop that saves the pulled receipts.
  unfoldable pub save_pulled : List (Receipt N) → List (ReceiptItem N) → Local N → Local N
  unfolding save_receipt
  save_pulled [] items local = local
  save_pulled (r ∷ rs) items local =
      save_pulled rs items
        (save_receipt locale r (select (λ item. text_eq item.receipt_id r.id) items) local)

  abbrev pub end_local_batch : Local N → Local N
  end_local_batch local = record local { changes = end_batch local.changes }

  abbrev pub save_batch : List (Receipt N) → List (ReceiptItem N) → Local N → Local N
  unfolding save_pulled begin_batch end_batch
  save_batch [] items local = local
  save_batch (r ∷ rs) items local =
      end_local_batch
        (save_pulled (r ∷ rs) items (record local { changes = begin_batch local.changes }))

  abbrev pub with_reports : Local N → SyncState → Option ReportStore → Option (Client N)
  with_reports local sync none = none
  with_reports local sync (some reports) =
      some (record { local = local; sync = sync; reports = reports })

  abbrev pub after_pull : Server N → ReportStore → Option (Pulled locale num) → Option (Client N)
  unfolding save_batch init_ai_reports_table sync_ai_reports
  after_pull server reports none = none
  after_pull server reports (some p) =
      with_reports (save_batch p.receipts p.items p.local) p.state (
        sync_ai_reports run.parse run.stringify run.show run.clock run.fresh server.token
          server.history
          (record reports { reports = init_ai_reports_table run.now reports.reports }))

  -- The deletions, then the upload, without the tables' changes of others in between.
  abbrev pub pushed : Server N → Client N → SyncState
  unfolding sync_pending_receipt_deletions sync_all_local_receipts_bulk
  pushed server client =
      (sync_all_local_receipts_bulk locale num run.datetime server.token server.single client.local
        server.bulk (sync_pending_receipt_deletions server.token server.deletion client.sync)).1

  -- `none` where the fuel for the pages, or for the sections of a report, is spent.
  unfoldable pub background_sync : Server N → ℕ → Client N → Option (Client N)
  unfolding pushed pull_server_receipts after_pull
  background_sync server fuel client = after_pull server client.reports (
      pull_server_receipts locale num run.datetime server.token server.page fuel run.now_text
        client.local (pushed server client))
