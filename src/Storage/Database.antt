-- ===== src/Storage/Database.antt =====
-- The tables of mobile/src/database/receiptQueries.ts and its statements, one definition each.
-- A table is the list of its rows in the order of insertion. SQLite leaves foreign keys unchecked
-- unless a connection asks for them, which this code does not, so no statement cascades.
use foodler.Common.{
  ℕ, ◌+◌, Bool, true, false, ◌&&◌, ◌||◌, not, Option, none, some, List, [], ◌∷◌, ◌++◌, map, any,
  select, if◌then◌else◌, leb,
}
use foodler.Text.{Text, text_eq, text_le}
use foodler.Receipts.{Numbers, Receipt, ReceiptItem}
use foodler.Category.{lookup_text}

-- A row of `receipt_items`: its key beside the columns.
pub record ItemRow (N : Type 0) : Type 0 where
  pub key : ℕ
  pub item : ReceiptItem N

pub record Database (N : Type 0) : Type 0 where
  pub receipts : List (Receipt N)
  pub items : List (ItemRow N)
  -- the next value of AUTOINCREMENT
  pub next_key : ℕ
  pub overrides : List (Text × Text)

abbrev pub empty_database : {N : Type 0} → Database N
empty_database = record { receipts = []; items = []; next_key = 1; overrides = [] }

-- The place of a unit of a well-formed text in the order of the bytes of UTF-8, by which SQLite
-- compares: code points beyond the basic plane, in UTF-16 two surrogates, are the last.
abbrev utf8_rank : ℕ → ℕ
utf8_rank c = if leb 0xd800 c && leb c 0xdfff then c + 0x10000 else c

unfoldable pub utf8_le : Text → Text → Bool
utf8_le s t = text_le (map utf8_rank s) (map utf8_rank t)

-- SELECT DISTINCT
unfoldable pub distinct : List Text → List Text
distinct [] = []
distinct (t ∷ ts) = let rest = distinct ts in if any (text_eq t) rest then rest else t ∷ rest

-- INSERT … ON CONFLICT(productNameKey) DO UPDATE
unfoldable pub upsert : Text → Text → List (Text × Text) → List (Text × Text)
upsert key category [] = (key, category) ∷ []
upsert key category ((k, c) ∷ rest) =
    if text_eq k key then (k, category) ∷ rest else (k, c) ∷ upsert key category rest

-- ORDER BY, by insertion: `before x y` says that `x` may stand before `y`.
module _ {ℓ} {A : Type ℓ} (before : A → A → Bool) where
  unfoldable pub insert_ordered : A → List A → List A
  insert_ordered x [] = x ∷ []
  insert_ordered x (y ∷ ys) =
      let rest = insert_ordered x ys in if before x y then x ∷ y ∷ ys else y ∷ rest

  unfoldable pub order_by : List A → List A
  unfolding insert_ordered
  order_by [] = []
  order_by (x ∷ xs) = insert_ordered x (order_by xs)

module _ {N : Type 0} where
  -- The keys of `receipts`: the primary key and the unique column.
  abbrev pub conflicts : Receipt N → Receipt N → Bool
  conflicts r s = text_eq s.id r.id || text_eq s.qrraw r.qrraw

  -- INSERT OR IGNORE, with the number of changed rows.
  unfoldable pub insert_receipt : Receipt N → Database N → Database N × ℕ
  insert_receipt r db =
      if any (conflicts r) db.receipts
      then (db, 0)
      else (record db { receipts = db.receipts ++ record r { status = none } ∷ [] }, 1)

  unfoldable pub delete_receipt_items : Text → Database N → Database N
  delete_receipt_items id db = record db {
    items = select (λ row. not (text_eq row.item.receipt_id id)) db.items;
  }

  unfoldable pub insert_receipt_item : ReceiptItem N → Database N → Database N
  insert_receipt_item item db = record db {
    items = db.items ++ record { key = db.next_key; item = item } ∷ [];
    next_key = db.next_key + 1;
  }

  unfoldable pub delete_receipts : Text → Database N → Database N
  delete_receipts id db = record db { receipts = select (λ r. not (text_eq r.id id)) db.receipts }

  -- UPDATE of the items that a test selects.
  abbrev pub update_where :
      (ReceiptItem N → Bool) → (ReceiptItem N → ReceiptItem N) → ItemRow N → ItemRow N
  update_where test change row =
      if test row.item then record row { item = change row.item } else row

  unfoldable pub update_receipt_item_category : Text → Text → Database N → Database N
  update_receipt_item_category new old db = record db {
    items =
        map (update_where (λ i. text_eq i.category old) (λ i. record i { category = new }))
          db.items;
  }

  unfoldable pub select_receipt_item_categories : Database N → List Text
  unfolding distinct
  select_receipt_item_categories db = distinct (map (λ row. row.item.category) db.items)

  unfoldable pub upsert_receipt_category_override : Text → Text → Database N → Database N
  upsert_receipt_category_override key category db = record db {
    overrides = upsert key category db.overrides;
  }

  unfoldable pub select_receipt_category_override : Text → Database N → Option Text
  select_receipt_category_override key db = lookup_text key db.overrides

  unfoldable pub delete_receipt_category_override : Text → Database N → Database N
  delete_receipt_category_override key db = record db {
    overrides = select (λ o. not (text_eq o.0 key)) db.overrides;
  }

  -- A row as the code reads it.
  abbrev pub read_row : ItemRow N → ReceiptItem N
  read_row row = record row.item { id = some row.key }

module _ {N : Type 0} (num : Numbers N) where
  abbrev pub same_product : Text → ReceiptItem N → ReceiptItem N → Bool
  same_product id new old =
      text_eq old.receipt_id id
      && text_eq old.name new.name
      && num.equal old.price_rub new.price_rub
      && num.equal old.quantity new.quantity

  -- The category and its provenance come from the bound parameters.
  unfoldable pub update_receipt_item_server_category :
      Text → ReceiptItem N → Database N → Database N
  update_receipt_item_server_category id new db = record db {
    items =
        map
          (update_where (same_product id new) (λ i. record i {
            category = new.category;
            category_source = new.category_source;
            category_confidence = new.category_confidence;
            category_taxonomy_version = new.category_taxonomy_version;
            category_model_version = new.category_model_version;
          }))
          db.items;
  }

  -- ORDER BY sumRub DESC, name ASC
  abbrev pub item_before : ItemRow N → ItemRow N → Bool
  item_before r s =
      num.less s.item.sum_rub r.item.sum_rub
      || (not (num.less r.item.sum_rub s.item.sum_rub) && utf8_le r.item.name s.item.name)

  unfoldable pub select_receipt_items : Text → Database N → List (ReceiptItem N)
  unfolding order_by
  select_receipt_items id db =
      map read_row (order_by item_before (select (λ row. text_eq row.item.receipt_id id) db.items))

-- NULL is the least value.
abbrev pub date_le : Option Text → Option Text → Bool
date_le none d = true
date_le (some c) none = false
date_le (some c) (some d) = text_le c d

-- ORDER BY datetime(ticketDate) DESC, id DESC, where `datetime` is SQLite's.
module _ {N : Type 0} (datetime : Text → Option Text) where
  abbrev receipt_before : Receipt N → Receipt N → Bool
  receipt_before r s =
      not (date_le (datetime r.ticket_date) (datetime s.ticket_date))
      || (date_le (datetime s.ticket_date) (datetime r.ticket_date) && utf8_le s.id r.id)

  unfoldable pub select_receipts : Database N → List (Receipt N)
  unfolding order_by
  select_receipts db = order_by receipt_before db.receipts
