-- ===== src/Sync/Tests.antt =====
-- Runs of mobile/src/api/sync.ts: one stored receipt, one on the server, one to be deleted.
use foodler.Common.{
  ℕ, ◌≡◌, refl, inr, false, ◌||◌, Option, none, some, List, [], ◌∷◌, map, any, select, arith,
  if◌then◌else◌,
}
use foodler.Text.{Text, codes, text_eq}
use foodler.Text.Russian.{russian}
use foodler.Json.{Json, number, object, field, end, lookup_field}
use foodler.Receipts.Samples.{roubles, shop_receipt, bread}
use foodler.ReceiptChanges.{start}
use foodler.Storage.Database.{empty_database}
use foodler.Storage.Operations.{Local, save_receipt}
use foodler.Sync.Ids.{
  Reply, answered, thrown, SyncState, has, error_status, ids_json, get_pending_deleted_ids,
  get_synced_ids,
}
use foodler.Sync.Ids.Laws.{IsIdSet}
use foodler.Sync.Deletions.{is_settled, queue_receipt_deletion, sync_pending_receipt_deletions}
use foodler.Sync.Deletions.Settled.{unsettled, sync_pending-unsettled}
use foodler.Sync.Pull.{ServerReceipt, Pulled, local_ids, pulled_receipt, pull_server_receipts}
use foodler.Sync.Pull.Pages.{slices}
use foodler.Sync.Pull.Merged.{is_new, pull_complete, deletion-not_resurrected}
use foodler.Sync.Upload.{ReceiptCreate, sync_all_local_receipts_bulk}
use foodler.Sync.Upload.Settles.{AllSynced, AcceptsAll, bulk-settles}

abbrev failure : Text → Json
failure status = object (field (codes "status") (number status) end)

-- The request for "a" fails, that for "b" is answered by 404, the others succeed.
abbrev unsteady : Text → Reply
unsteady id =
    if text_eq id (codes "a")
    then thrown (failure (codes "500"))
    else if text_eq id (codes "b")
    then thrown (failure (codes "404"))
    else answered tt

abbrev waiting : SyncState
waiting = record {
  pending_deleted = ids_json (codes "b" ∷ codes "a" ∷ codes "c" ∷ []);
  synced = ids_json (codes "b" ∷ []);
}

abbrev token : Option Text
token = some (codes "token")

abbrev by_date : Text → Option Text
by_date date = some date

abbrev phone : Local ℕ
phone =
    save_receipt russian shop_receipt (bread ∷ [])
      (record { database = empty_database; changes = start })

abbrev listing : Text → ServerReceipt ℕ
listing id = record {
  id = id;
  store = none;
  date = some (codes "2026-07-20");
  total = some 50;
  items = none;
}

abbrev on_server : List (ServerReceipt ℕ)
on_server = listing (codes "a") ∷ listing (codes "d") ∷ listing (codes "qr:1") ∷ []

ids_test : unsettled unsteady (codes "b" ∷ codes "a" ∷ codes "c" ∷ []) ≡ codes "a" ∷ []
unfolding text_eq error_status lookup_field
ids_test = refl

refused : is_settled (unsteady (codes "a")) ≡ false
unfolding text_eq error_status lookup_field
refused = refl

two_ids-IsIdSet : IsIdSet (codes "b" ∷ codes "a" ∷ [])
unfolding text_eq
two_ids-IsIdSet = (refl, (refl, tt))

sync_pending-unsettled_example :
    get_pending_deleted_ids (sync_pending_receipt_deletions token unsteady waiting)
    ≡ unsettled unsteady (get_pending_deleted_ids waiting)
sync_pending-unsettled_example = sync_pending-unsettled unsteady token waiting refl

pull_complete_example :
    (p : Pulled russian roubles) × (pull_server_receipts russian roubles by_date token
        (slices on_server)
        1
        (codes "now")
        phone
        waiting
      ≡ some p)
    × (p.receipts
        ≡ map (pulled_receipt russian roubles (codes "now")) (
            select
              (is_new (local_ids russian roubles by_date phone) (get_pending_deleted_ids waiting))
              on_server))
    × ((id : Text)
        → has id (get_synced_ids p.state)
          ≡ (has id (get_synced_ids waiting) || any (λ sr. text_eq sr.id id) on_server))
pull_complete_example =
    pull_complete russian roubles by_date (codes "now") phone waiting token on_server 1 refl
      (omega arith)

abbrev asked : SyncState
asked = sync_pending_receipt_deletions token unsteady (queue_receipt_deletion (codes "a") waiting)

-- The download from the server that still lists "a".
pulled :
    (p : Pulled russian roubles) × (pull_server_receipts russian roubles by_date token
        (slices on_server)
        1
        (codes "now")
        phone
        asked
      ≡ some p)
pulled =
    let (p, e, fresh, marked) =
      pull_complete russian roubles by_date (codes "now") phone asked token on_server 1 refl
        (omega arith) in
    (p, e)

deletion-not_resurrected_example : any (λ r. text_eq r.id (codes "a")) pulled.0.receipts ≡ false
deletion-not_resurrected_example =
    deletion-not_resurrected russian roubles by_date token unsteady (slices on_server) 1
      (codes "now") phone waiting (codes "a") pulled.0 refused pulled.1

abbrev every_single : ReceiptCreate ℕ → Reply
every_single body = answered tt

abbrev no_array : List (ReceiptCreate ℕ) → Reply
no_array bodies = thrown (failure (codes "405"))

abbrev broken : List (ReceiptCreate ℕ) → Reply
broken bodies = thrown (failure (codes "500"))

no_array-AcceptsAll : AcceptsAll russian roubles by_date token phone every_single no_array
unfolding error_status lookup_field text_eq
no_array-AcceptsAll = inr ((λ bodies. (failure (codes "405"), refl, refl)), (λ b. refl))

bulk-settles_example :
    AllSynced russian roubles by_date token phone
      (sync_all_local_receipts_bulk russian roubles by_date token every_single phone no_array
        waiting).1
    × (sync_all_local_receipts_bulk russian roubles by_date token every_single phone broken
          (sync_all_local_receipts_bulk russian roubles by_date token every_single phone no_array
            waiting).1
        ≡ (
          [],
          (sync_all_local_receipts_bulk russian roubles by_date token every_single phone no_array
              waiting).1,
        ))
bulk-settles_example =
    bulk-settles russian roubles by_date token phone every_single no_array broken waiting refl
      no_array-AcceptsAll
