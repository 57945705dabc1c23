-- ===== src/Sync/Upload.antt =====
-- The uploads of mobile/src/api/sync.ts. An upload gives the requests that it makes, in order, and
-- the device's keys after it. `single` and `bulk` are the outcomes of `createReceipt` and of
-- `createReceiptsArray`.
pub mod Settles
use foodler.Common.{
  ℕ, Bool, true, false, ◌||◌, not, Option, none, some, List, [], ◌∷◌, ◌++◌, map, select, take,
  if◌then◌else◌,
}
use foodler.Text.{Text, codes, is_empty, starts_with, Locale}
use foodler.Receipts.{Numbers, Receipt, ReceiptItem}
use foodler.Storage.Operations.{Local, load_receipts, load_receipt_items}
use foodler.Sync.Ids.{
  Reply, answered, thrown, SyncState, has, add, add_all, has_status, is_authenticated,
  get_synced_ids, save_synced_ids,
}

pub record ItemCreate (N : Type 0) : Type 0 where
  pub name : Text
  pub quantity : N
  pub price : N
  pub sum : N

pub record ReceiptCreate (N : Type 0) : Type 0 where
  pub id : Text
  pub date : Text
  pub store : Text
  pub merchant_identity : Option Text
  pub total : N
  pub source_key : Option Text
  pub items : List (ItemCreate N)

pub data Request (N : Type 0) : Type 0 where
  create_receipt : ReceiptCreate N → Request N
  create_receipts_array : List (ReceiptCreate N) → Request N

-- `a || null`
abbrev text_or_null : Text → Option Text
text_or_null t = if is_empty t then none else some t

module _ {N : Type 0} (num : Numbers N) where
  abbrev server_item : ReceiptItem N → ItemCreate N
  server_item item = record {
    name = item.name;
    quantity = item.quantity;
    price = num.absolute item.price_rub;
    sum = num.absolute item.sum_rub;
  }

  unfoldable pub to_server_receipt : Receipt N → List (ReceiptItem N) → ReceiptCreate N
  unfolding starts_with
  to_server_receipt receipt items = record {
    id = receipt.id;
    date = take 10 receipt.ticket_date;
    store = receipt.organization;
    merchant_identity = text_or_null receipt.organization;
    total = num.absolute receipt.total_sum_rub;
    source_key =
        if starts_with (codes "manual:") receipt.qrraw
          || starts_with (codes "synced:") receipt.qrraw
        then none
        else some receipt.qrraw;
    items = map server_item items;
  }

  -- The requests, and what the function returns; `none` where it throws.
  unfoldable pub sync_receipt_to_server :
      Option Text
      → (ReceiptCreate N → Reply)
      → Receipt N
      → List (ReceiptItem N)
      → List (Request N) × Option Bool
  unfolding to_server_receipt
  sync_receipt_to_server token single receipt items =
      let body = to_server_receipt receipt items in
      if not (is_authenticated token) then ([], some false) else (
        create_receipt body ∷ [],
        elim (single body) [ answered done ↦ some true | thrown error ↦ none ],
      )

module _ {N : Type 0} (locale : Locale) (num : Numbers N) (datetime : Text → Option Text)
    (token : Option Text) (single : ReceiptCreate N → Reply) (local : Local N) where
  abbrev pub body_of : Receipt N → ReceiptCreate N
  body_of r = to_server_receipt num r (load_receipt_items locale num r.id local)

  -- After one upload: the requests of `first`, then the others unless it threw.
  abbrev pub and_then :
      List (Request N) × Option Bool
      → (Bool → List (Request N) × Option (List Text))
      → List (Request N) × Option (List Text)
  and_then (sent, none) next = (sent, none)
  and_then (sent, some uploaded) next = (sent ++ (next uploaded).0, (next uploaded).1)

  -- The loop that uploads one receipt after the other; `none` where a request throws.
  unfoldable pub upload_each : List (Receipt N) → List Text → List (Request N) × Option (List Text)
  unfolding sync_receipt_to_server
  upload_each [] synced = ([], some synced)
  upload_each (r ∷ rs) synced =
      let rest = upload_each rs in
      if has r.id synced
      then rest synced
      else and_then
          (sync_receipt_to_server num token single r (load_receipt_items locale num r.id local))
          (λ uploaded. rest (if uploaded then add r.id synced else synced))

  -- `saveSyncedIds`, unless the loop threw, which is caught.
  abbrev pub save_unless_thrown : SyncState → Option (List Text) → SyncState
  save_unless_thrown state none = state
  save_unless_thrown state (some ids) = save_synced_ids ids state

  abbrev pub upload_individually : SyncState → List (Request N) × SyncState
  upload_individually state =
      let (sent, ids) = upload_each (load_receipts datetime local) (get_synced_ids state) in
      (sent, save_unless_thrown state ids)

  unfoldable pub sync_all_local_receipts : SyncState → List (Request N) × SyncState
  sync_all_local_receipts state =
      if not (is_authenticated token) then ([], state) else upload_individually state

  abbrev pub unsynced_receipts : SyncState → List (Receipt N)
  unsynced_receipts state =
      select (λ r. not (has r.id (get_synced_ids state))) (load_receipts datetime local)

  abbrev pub upload_bulk :
      (List (ReceiptCreate N) → Reply)
      → SyncState
      → List (ReceiptCreate N)
      → List (Request N) × SyncState
  upload_bulk bulk state [] = ([], state)
  upload_bulk bulk state (b ∷ bodies) = elim (bulk (b ∷ bodies)) [
    | answered done ↦ (
      create_receipts_array (b ∷ bodies) ∷ [],
      save_synced_ids (add_all (map (λ c. c.id) (b ∷ bodies)) (get_synced_ids state)) state,
    )
    | thrown error ↦
        let (sent, after) = upload_individually state in
        if has_status (codes "405") error
        then (create_receipts_array (b ∷ bodies) ∷ sent, after)
        else (create_receipts_array (b ∷ bodies) ∷ [], state)
  ]

  unfoldable pub sync_all_local_receipts_bulk :
      (List (ReceiptCreate N) → Reply) → SyncState → List (Request N) × SyncState
  sync_all_local_receipts_bulk bulk state =
      if not (is_authenticated token)
      then ([], state)
      else upload_bulk bulk state (map body_of (unsynced_receipts state))
