-- ===== src/App/Tests.antt =====
-- Runs of mobile/src/features/app/AppDataContext.tsx: a change during an upload, a refresh that reads,
-- and a synchronisation with a server that lists a receipt whose deletion it refused.
use foodler.Common.{
  inl, inr, ℕ, ◌≡◌, ◌≤◌, ◌<◌, ◌⊎◌, refl, true, false, Option, none, some, List, [], ◌∷◌, arith,
}
use foodler.Text.{Text, codes, text_eq}
use foodler.Text.Russian.{russian}
use foodler.Json.{Json, number, object, field, end, lookup_field}
use foodler.Receipts.Samples.{roubles}
use foodler.ReceiptChanges
use foodler.ReceiptChanges.{notify_receipt_change, deliver}
use foodler.ReceiptChanges.Delivery
use foodler.Storage.Database.{empty_database}
use foodler.Ai.Sections.Ends.{IsShortening}
use foodler.Sync.Ids.{answered, thrown, ids_json, parse_stored_ids, error_status}
use foodler.Sync.Deletions.{is_settled}
use foodler.Sync.Pull.{ServerReceipt}
use foodler.Sync.Pull.Pages.{slices}
use foodler.App.Uploads
use foodler.App.Uploads.{push_local_receipts}
use foodler.App.Uploads.Covered.{uploads-cover}
use foodler.App.Refreshes
use foodler.App.Refreshes.{Screens, begin_refresh, read_receipts}
use foodler.App.Refreshes.Current.{refreshes-never_go_back}
use foodler.App.Background.{Client, Server, Runtime, background_sync}
use foodler.App.Background.Deleted.{IsDeleted, background_sync-IsDeleted}

start-IsCoherent : Delivery.IsCoherent ReceiptChanges.start
start-IsCoherent = record { queued = inr refl; unqueued = inl refl; open_batch = inl refl }

-- A change is delivered while the first upload runs.
abbrev one_change : Uploads.Uploads
unfolding push_local_receipts notify_receipt_change deliver
one_change =
    push_local_receipts
      (record (push_local_receipts
        (record (Uploads.start 0 ReceiptChanges.start) { due = false })) {
          version = 1;
          unannounced = 0;
          news = deliver (notify_receipt_change ReceiptChanges.start);
        })

one_change-Reach : Uploads.Reach one_change
unfolding one_change push_local_receipts notify_receipt_change deliver
one_change-Reach =
    Uploads.next
      (Uploads.next
        (Uploads.next
          (Uploads.next (Uploads.here 0 ReceiptChanges.start start-IsCoherent)
            (Uploads.signed_in refl))
          Uploads.commits)
        (Uploads.announces (omega arith)))
      (Uploads.delivers (omega arith))

uploads-cover_example :
    (one_change.running ≤ 1)
    × ((one_change.due ≡ true) ⊎ (0 < one_change.begun))
    × ((one_change.covered ≡ one_change.version)
        ⊎ (0 < one_change.unannounced)
        ⊎ Delivery.IsPending one_change.news
        ⊎ ((one_change.sync_queued ≡ true) × (one_change.running ≡ 1)))
uploads-cover_example = uploads-cover one_change one_change-Reach

abbrev begun : Screens
unfolding begin_refresh
begun = begin_refresh (record Refreshes.start { version = 1 })

abbrev read : Screens
unfolding begun read_receipts
read = read_receipts 1 (record { receipts = none; items = none; overrides = none }) begun

begun-Reach : Refreshes.Reach begun
unfolding begun begin_refresh
begun-Reach = Refreshes.next (Refreshes.next Refreshes.here Refreshes.changes) Refreshes.begins

refreshes-never_go_back_example :
    (begun.receipts ≤ read.receipts)
    × (begun.joined_items ≤ read.joined_items)
    × (begun.overrides ≤ read.overrides)
    × (read.receipts ≤ read.version)
    × (read.joined_items ≤ read.version)
    × (read.overrides ≤ read.version)
unfolding begun read begin_refresh read_receipts
refreshes-never_go_back_example =
    refreshes-never_go_back begun read begun-Reach
      (Refreshes.reads_receipts 1 (record { receipts = none; items = none; overrides = none }) refl)

abbrev no_parse : Text → Option Json
no_parse t = none

no_parse-IsShortening : IsShortening no_parse
no_parse-IsShortening t items h = absurd cc

abbrev runtime : Runtime
runtime = record {
  parse = no_parse;
  stringify = λ v. [];
  show = λ v. [];
  datetime = λ t. some t;
  now_text = codes "2026-07-23";
  now = 0;
  clock = λ n. n;
  fresh = λ n. codes "f";
}

abbrev on_server : List (ServerReceipt ℕ)
on_server = record { id = codes "a"; store = none; date = none; total = some 5; items = none } ∷ []

abbrev server : Server ℕ
server = record {
  token = some (codes "token");
  deletion = λ id. thrown (object (field (codes "status") (number (codes "500")) end));
  single = λ body. answered tt;
  bulk = λ bodies. answered tt;
  page = slices on_server;
  history = answered [];
}

abbrev client : Client ℕ
client = record {
  local = record { database = empty_database; changes = ReceiptChanges.start };
  sync = record { pending_deleted = ids_json (codes "a" ∷ []); synced = none };
  reports = record { reports = []; synced_ids = none };
}

client-IsDeleted : IsDeleted russian roubles runtime (codes "a") client
unfolding parse_stored_ids ids_json text_eq
client-IsDeleted = (refl, refl)

refused : is_settled (server.deletion (codes "a")) ≡ false
unfolding error_status lookup_field text_eq
refused = refl

background_sync-IsDeleted_example :
    (after : Client ℕ) × ((background_sync russian roubles runtime server 1 client ≡ some after)
      × IsDeleted russian roubles runtime (codes "a") after)
background_sync-IsDeleted_example =
    background_sync-IsDeleted russian roubles runtime server on_server 1 client (codes "a")
      no_parse-IsShortening refl (omega arith) refused client-IsDeleted
