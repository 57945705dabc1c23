-- ===== src/App/Background/Deleted.antt =====
-- A deletion that the server did not take outlives the whole synchronisation.
use foodler.Common.{
  ℕ, ◌*◌, ◌<◌, length, ◌≡◌, refl, subst, ap, ◌∙◌, true, false, some, List, any, Bool-cases, inl,
  inr,
}
use foodler.Text.{Text, text_eq, Locale}
use foodler.Receipts.{Numbers}
use foodler.Storage.Operations.{Local}
use foodler.Sync.Ids.{SyncState, has, is_authenticated, get_pending_deleted_ids, parse_stored_ids}
use foodler.Sync.Deletions.{is_settled, sync_pending_receipt_deletions}
use foodler.Sync.Pull.{
  ServerReceipt, Pulled, list_pages, pulled_nothing, receipt_page_size, pull_server_receipts,
}
use foodler.Sync.Pull.Merged.{pull-listed, pull-pending, refused-waits}
use foodler.Sync.Pull.Pages.{slices, list_pages_complete}
use foodler.Sync.Reports.Total.{sync_ai_reports-total}
use foodler.Ai.Sections.Ends.{IsShortening}
use foodler.Ai.Reports.{init_ai_reports_table}
use foodler.Sync.Reports.{ReportStore}
use foodler.App.Background.{
  Client, Server, Runtime, save_batch, with_reports, after_pull, pushed, background_sync,
}
use foodler.App.Background.Untouched.{
  has_receipt, save_batch-others, upload-pending, IsPulled, pull-IsPulled,
}

module _ {N : Type 0} (locale : Locale) (num : Numbers N) where
  module _ (run : Runtime) where
    -- The client after the synchronisation: the receipt is not stored, and its deletion still waits.
    abbrev pub IsDeleted : Text → Client N → Type 0
    IsDeleted id client =
        (has_receipt id client.local ≡ false)
        × (has id (get_pending_deleted_ids client.sync) ≡ true)

    pushed-waits :
        (server : Server N) (client : Client N) (id : Text)
        → is_settled (server.deletion id) ≡ false
        → has id (get_pending_deleted_ids client.sync) ≡ true
        → has id (get_pending_deleted_ids (pushed locale num run server client)) ≡ true
    unfolding pushed
    pushed-waits server client id refused waits =
        ap (λ raw. has id (parse_stored_ids raw))
          (upload-pending locale num run.datetime server.token server.single client.local
            server.bulk (sync_pending_receipt_deletions server.token server.deletion client.sync))
        ∙ refused-waits locale num run.datetime server.token server.deletion id client.sync refused
            waits

    pull-total :
        (server : Server N) (all : List (ServerReceipt N)) (fuel : ℕ) (local : Local N)
        (state : SyncState)
        → server.page ≡ slices all
        → length all < fuel * receipt_page_size
        → (p : Pulled locale num) × (pull_server_receipts locale num run.datetime server.token
              server.page fuel run.now_text local state
            ≡ some p)
    pull-total server all fuel local state lists enough =
        elim (Bool-cases (is_authenticated server.token)) [
          | inl on ↦ (
            _,
            pull-listed locale num run.datetime run.now_text local state server.token server.page
                fuel all on
                (ap (λ page. list_pages page fuel 0) lists ∙ list_pages_complete all fuel enough),
          )
          | inr off ↦
              (pulled_nothing locale num local state, unfold pull_server_receipts in rw off refl)
        ]

    -- When a receipt was deleted and the server does not take the deletion, the whole synchronisation
    -- after signing in ends, whatever else the server answers, without the receipt in the table and
    -- with its deletion still queued. The server has a list of receipts that the fuel covers, and
    -- nested sections are read by a parser whose strings are shorter than their text.
    pub background_sync-IsDeleted :
        (server : Server N) (all : List (ServerReceipt N)) (fuel : ℕ) (client : Client N)
        (id : Text)
        → IsShortening run.parse
        → server.page ≡ slices all
        → length all < fuel * receipt_page_size
        → is_settled (server.deletion id) ≡ false
        → IsDeleted id client
        → (after : Client N) × ((background_sync locale num run server fuel client ≡ some after)
            × IsDeleted id after)
    unfolding background_sync
    background_sync-IsDeleted server all fuel client id shorter lists enough refused (away, waits) =
        let state = pushed locale num run server client in
        let state_waits = pushed-waits server client id refused waits in
        let (p, e) = pull-total server all fuel client.local state lists enough in
        let pulled = subst (IsPulled locale num client.local state) e (
          pull-IsPulled locale num run.datetime server.token server.page fuel run.now_text
            client.local state) in
        let store : ReportStore = record client.reports {
          reports = init_ai_reports_table run.now client.reports.reports;
        } in
        let (reports, synced) =
          sync_ai_reports-total run.parse run.stringify run.show run.clock run.fresh shorter
            server.token server.history store in
        let fresh =
          pull-pending locale num run.datetime run.now_text client.local state server.token
            server.page fuel id p state_waits e in
        (
          record {
            local = save_batch locale num run p.receipts p.items p.local;
            sync = p.state;
            reports = reports;
          },
          (
            ap (after_pull locale num run server client.reports) e
                ∙ ap
                    (with_reports locale num run
                      (save_batch locale num run p.receipts p.items p.local) p.state)
                    synced,
            (
              save_batch-others locale num run id p.receipts p.items p.local fresh
                  (ap (any (λ r. text_eq r.id id)) pulled.0 ∙ away),
              ap (λ raw. has id (parse_stored_ids raw)) pulled.1 ∙ state_waits,
            ),
          ),
        )
