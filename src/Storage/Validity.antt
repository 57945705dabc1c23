-- ===== src/Storage/Validity.antt =====
-- What the tables keep whatever is called: keys are unique, and every item belongs to a stored
-- receipt, which SQLite itself does not check here. First the statements, then the functions.
mod Statements
pub mod Updates
pub use Statements.{IsIncreasing, IsValid, empty-IsValid}
use foodler.Common.{
  ◌≡◌, refl, ap, ◌∙◌, Bool, true, false, ◌||◌, not, Option, none, some, List, [], ◌∷◌, ◌++◌, arith,
  any, select, map, All, All-select, Bool-cases, inl, inr, if◌then◌else◌, ◌==◌, or_else,
}
use foodler.Text.{Text, text_eq, trim, is_empty, Locale}
use foodler.Text.Laws.{text_eq_iff, text_eq_refl}
use foodler.Receipts.{Numbers, Receipt, ReceiptItem}
use foodler.Category.{normalize_category}
use foodler.Storage.Database.{
  Database, ItemRow, insert_receipt, delete_receipt_items, delete_receipts,
  select_receipt_item_categories,
}
use foodler.Storage.Identity.{normalize_product_name, normalize_qrraw}
use foodler.Storage.Operations.{
  Local, write, stored_item, insert_items, save_transaction, save_receipt, normalize_each,
  normalize_persisted_categories, save_local_category_override, remove_local_category_override,
  apply_each, apply_server_item_categories, delete_receipt,
}
use Statements.{
  insert_receipt-IsValid, delete_receipt_items-IsValid, HasReceipt, insert_receipt-HasReceipt,
  delete_items-HasReceipt, insert_item-HasReceipt, delete_items-none,
}
use Updates.{
  insert_receipt_item-IsValid, delete_receipts-IsValid, update_category-IsValid,
  update_server-IsValid, upsert-IsValid, delete_override-IsValid,
}

module _ {N : Type 0} (locale : Locale) where
  insert_items-IsValid :
      (id : Text) (items : List (ReceiptItem N)) (db : Database N)
      → HasReceipt id db
      → IsValid db
      → IsValid (insert_items locale id items db)
  unfolding insert_items
  insert_items-IsValid id [] db r v = v
  insert_items-IsValid id (item ∷ items) db r v =
      insert_items-IsValid id items _ (insert_item-HasReceipt id (stored_item locale id item) db r)
        (insert_receipt_item-IsValid (stored_item locale id item) db r v)

  save_transaction-IsValid :
      (receipt : Receipt N) (items : List (ReceiptItem N)) (db : Database N)
      → IsValid db
      → IsValid (save_transaction locale receipt items db)
  unfolding save_transaction
  save_transaction-IsValid receipt items db v =
      let r : Receipt N = record receipt { qrraw = normalize_qrraw locale receipt.qrraw } in
      let w = insert_receipt-IsValid r db v in
      elim (Bool-cases ((insert_receipt r db).1 == 0)) [
        | inl ignored ↦ rw ignored w
        | inr fresh ↦ rw fresh (
            insert_items-IsValid receipt.id items _
              (delete_items-HasReceipt receipt.id receipt.id _
                (insert_receipt-HasReceipt r db fresh))
              (delete_receipt_items-IsValid receipt.id _ w))
      ]

  normalize_each-IsValid :
      (categories : List Text) (db : Database N)
      → IsValid db
      → IsValid (normalize_each locale categories db)
  unfolding normalize_each
  normalize_each-IsValid [] db v = v
  normalize_each-IsValid (c ∷ cs) db v = normalize_each-IsValid cs _ (
      if-IsValid (text_eq (normalize_category locale (some c)) c) v
        (update_category-IsValid (normalize_category locale (some c)) c db v))
    where
      if-IsValid :
          (b : Bool) {d e : Database N} → IsValid d → IsValid e → IsValid (if b then d else e)
      if-IsValid true p q = p
      if-IsValid false p q = q

module _ {N : Type 0} (locale : Locale) (num : Numbers N) where
  apply_each-IsValid :
      (id : Text) (items : List (ReceiptItem N)) (db : Database N)
      → IsValid db
      → IsValid (apply_each locale num id items db)
  unfolding apply_each
  apply_each-IsValid id [] db v = v
  apply_each-IsValid id (item ∷ items) db v =
      apply_each-IsValid id items _ (update_server-IsValid num id _ db v)

-- The functions that change the tables, as an application calls them in any order.
pub data Operation (N : Type 0) : Type 0 where
  save : Receipt N → List (ReceiptItem N) → Operation N
  delete : Text → Operation N
  override : Text → Text → Operation N
  restore : Text → Operation N
  server_categories : Text → List (ReceiptItem N) → Operation N
  reopen : Operation N

module _ {N : Type 0} (locale : Locale) (num : Numbers N) where
  -- An override that is refused changes nothing. Opening the database normalises the categories.
  unfoldable pub perform : Operation N → Local N → Local N
  perform (save receipt items) s = save_receipt locale receipt items s
  perform (delete id) s = delete_receipt id s
  perform (override name category) s =
      or_else (save_local_category_override locale name category s) s
  perform (restore name) s = remove_local_category_override locale name s
  perform (server_categories id items) s = apply_server_item_categories locale num id items s
  perform reopen s = record s { database = normalize_persisted_categories locale s.database }

  unfoldable pub perform_all : List (Operation N) → Local N → Local N
  unfolding perform
  perform_all [] s = s
  perform_all (o ∷ os) s = perform_all os (perform o s)

  perform-IsValid :
      (o : Operation N) (s : Local N) → IsValid s.database → IsValid (perform o s).database
  unfolding perform save_receipt delete_receipt save_local_category_override
      remove_local_category_override apply_server_item_categories normalize_persisted_categories
  perform-IsValid (save receipt items) s v =
      save_transaction-IsValid locale receipt items s.database v
  perform-IsValid (delete id) s v =
      delete_receipts-IsValid id _ (delete_items-none id s.database)
        (delete_receipt_items-IsValid id s.database v)
  perform-IsValid (override name category) s v =
      elim (Bool-cases
        (is_empty (normalize_product_name locale name) || is_empty (trim category))) [
          | inl bad ↦ rw bad v
          | inr good ↦ rw good (upsert-IsValid _ _ s.database v)
        ]
  perform-IsValid (restore name) s v = delete_override-IsValid _ s.database v
  perform-IsValid (server_categories id items) s v =
      apply_each-IsValid locale num id items s.database v
  perform-IsValid reopen s v =
      normalize_each-IsValid locale (select_receipt_item_categories s.database) s.database v

  -- From valid tables, such as empty ones, every sequence of calls leads to valid tables: receipt
  -- keys, fiscal codes, item keys and override keys are unique, and no item is without its receipt.
  pub perform_all-IsValid :
      (os : List (Operation N)) (s : Local N)
      → IsValid s.database
      → IsValid (perform_all os s).database
  unfolding perform_all
  perform_all-IsValid [] s v = v
  perform_all-IsValid (o ∷ os) s v = perform_all-IsValid os (perform o s) (perform-IsValid o s v)
