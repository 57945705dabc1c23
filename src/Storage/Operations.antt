-- ===== src/Storage/Operations.antt =====
-- The exported functions of mobile/src/storage.ts. Each works on the tables and on the notifications
-- of receiptChanges.ts; an exclusive transaction runs alone and the database does not fail.
use foodler.Common.{
  Bool, ◌||◌, Option, none, some, List, [], ◌∷◌, map, ◌==◌, is_some, if◌then◌else◌,
}
use foodler.Text.{Text, text_eq, is_empty, trim, Locale}
use foodler.Receipts.{Numbers, Receipt, ReceiptItem}
use foodler.ReceiptChanges.{Changes, notify_receipt_change}
use foodler.Category.{lookup_text, normalize_category}
use foodler.Storage.Database.{
  Database, insert_receipt, delete_receipt_items, insert_receipt_item, delete_receipts,
  update_receipt_item_category, select_receipt_item_categories, upsert_receipt_category_override,
  select_receipt_category_override, delete_receipt_category_override, select_receipts,
  update_receipt_item_server_category, select_receipt_items,
}
use foodler.Storage.Identity.{normalize_product_name, normalize_qrraw}

pub record Local (N : Type 0) : Type 0 where
  pub database : Database N
  pub changes : Changes

module _ {N : Type 0} where
  abbrev pub write : Database N → Local N → Local N
  write db s = record s { database = db; changes = notify_receipt_change s.changes }

module _ {N : Type 0} (locale : Locale) where
  -- The parameters that `saveReceipt` binds for one item.
  abbrev pub stored_item : Text → ReceiptItem N → ReceiptItem N
  stored_item id item = record item {
    id = none;
    receipt_id = id;
    category = normalize_category locale (some item.category);
  }

  unfoldable pub insert_items : Text → List (ReceiptItem N) → Database N → Database N
  insert_items id [] db = db
  insert_items id (item ∷ items) db =
      insert_items id items (insert_receipt_item (stored_item id item) db)

  -- The transaction of `saveReceipt`.
  unfoldable pub save_transaction : Receipt N → List (ReceiptItem N) → Database N → Database N
  save_transaction receipt items db =
      let (inserted, changed) =
        insert_receipt (record receipt { qrraw = normalize_qrraw locale receipt.qrraw }) db in
      if changed == 0
      then inserted
      else insert_items receipt.id items (delete_receipt_items receipt.id inserted)

  unfoldable pub save_receipt : Receipt N → List (ReceiptItem N) → Local N → Local N
  unfolding save_transaction
  save_receipt receipt items s = write (save_transaction receipt items s.database) s

  -- The loop of `normalizePersistedCategories` over the categories that it read.
  unfoldable pub normalize_each : List Text → Database N → Database N
  normalize_each [] db = db
  normalize_each (category ∷ categories) db =
      let normalized = normalize_category locale (some category) in
      normalize_each categories (
        if text_eq normalized category
        then db
        else update_receipt_item_category normalized category db)

  unfoldable pub normalize_persisted_categories : Database N → Database N
  unfolding normalize_each
  normalize_persisted_categories db = normalize_each (select_receipt_item_categories db) db

  abbrev pub apply_override : Database N → ReceiptItem N → ReceiptItem N
  apply_override db item =
      elim (lookup_text (normalize_product_name locale item.name) db.overrides) [
        | none ↦ item
        | some category ↦ record item { category = category }
      ]

  unfoldable pub apply_local_category_overrides :
      Database N → List (ReceiptItem N) → List (ReceiptItem N)
  apply_local_category_overrides db items = map (apply_override db) items

  -- `none` is the error that the function throws.
  unfoldable pub save_local_category_override : Text → Text → Local N → Option (Local N)
  save_local_category_override product_name category s =
      let key = normalize_product_name locale product_name in
      if is_empty key || is_empty (trim category)
      then none
      else some (write (upsert_receipt_category_override key (trim category) s.database) s)

  unfoldable pub has_local_category_override : Text → Local N → Bool
  has_local_category_override product_name s =
      is_some
        (select_receipt_category_override (normalize_product_name locale product_name) s.database)

  unfoldable pub remove_local_category_override : Text → Local N → Local N
  remove_local_category_override product_name s =
      write
        (delete_receipt_category_override (normalize_product_name locale product_name) s.database) s

module _ {N : Type 0} (locale : Locale) (num : Numbers N) where
  unfoldable pub load_receipt_items : Text → Local N → List (ReceiptItem N)
  load_receipt_items id s =
      apply_local_category_overrides locale s.database (select_receipt_items num id s.database)

  -- The loop of `applyServerItemCategories`.
  unfoldable pub apply_each : Text → List (ReceiptItem N) → Database N → Database N
  apply_each id [] db = db
  apply_each id (item ∷ items) db = apply_each id items (
      update_receipt_item_server_category num id
        (record item { category = normalize_category locale (some item.category) }) db)

  unfoldable pub apply_server_item_categories : Text → List (ReceiptItem N) → Local N → Local N
  unfolding apply_each
  apply_server_item_categories id items s = write (apply_each id items s.database) s

module _ {N : Type 0} where
  unfoldable pub load_receipts : (Text → Option Text) → Local N → List (Receipt N)
  load_receipts datetime s = select_receipts datetime s.database

  unfoldable pub delete_receipt : Text → Local N → Local N
  unfolding delete_receipts delete_receipt_items
  delete_receipt id s = write (delete_receipts id (delete_receipt_items id s.database)) s
