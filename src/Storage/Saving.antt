-- ===== src/Storage/Saving.antt =====
-- `saveReceipt` and `deleteReceipt`: duplicates are ignored, a new receipt's items are stored in
-- order and under its key, and deleting it undoes that.
pub mod Theorems
pub mod Codes
use mathlib.Core.List.{append_assoc, append-nil}
use foodler.Common.{
  ℕ, ◌+◌, ◌≡◌, refl, sym, ap, ◌∙◌, Bool, true, false, ◌||◌, not, some, none, List, [], ◌∷◌, ◌++◌,
  arith, any, select, map, All, Bool-cases, inl, inr, if◌then◌else◌, ◌==◌, select-append,
}
use foodler.Text.{Text, text_eq, Locale}
use foodler.Text.Laws.{text_eq_iff, text_eq_refl}
use foodler.Receipts.{Receipt, ReceiptItem}
use foodler.Storage.Database.{
  Database, ItemRow, conflicts, insert_receipt, delete_receipt_items, insert_receipt_item,
  delete_receipts,
}
use foodler.Storage.Identity.{normalize_qrraw}
use foodler.Keys.{any-append, select-select_none, select-select_same, select-All, select-none}
use foodler.Storage.Operations.{
  Local, stored_item, insert_items, save_transaction, save_receipt, delete_receipt,
}

module _ {N : Type 0} (locale : Locale) where
  -- The receipt as `saveReceipt` writes it.
  abbrev pub normal_receipt : Receipt N → Receipt N
  normal_receipt r = record r { qrraw = normalize_qrraw locale r.qrraw }

  -- One key, or one fiscal code after normalisation.
  abbrev pub SameReceipt : Receipt N → Receipt N → Type 0
  SameReceipt r s = conflicts (normal_receipt r) (normal_receipt s) ≡ true

  receipts-insert_items :
      (id : Text) (items : List (ReceiptItem N)) (db : Database N)
      → (insert_items locale id items db).receipts ≡ db.receipts
  unfolding insert_items insert_receipt_item
  receipts-insert_items id [] db = refl
  receipts-insert_items id (item ∷ items) db = receipts-insert_items id items _

  overrides-insert_items :
      (id : Text) (items : List (ReceiptItem N)) (db : Database N)
      → (insert_items locale id items db).overrides ≡ db.overrides
  unfolding insert_items insert_receipt_item
  overrides-insert_items id [] db = refl
  overrides-insert_items id (item ∷ items) db = overrides-insert_items id items _

  pub save-overrides :
      (r : Receipt N) (items : List (ReceiptItem N)) (db : Database N)
      → (save_transaction locale r items db).overrides ≡ db.overrides
  unfolding save_transaction insert_receipt delete_receipt_items
  save-overrides r items db = elim (Bool-cases (any (conflicts (normal_receipt r)) db.receipts)) [
    | inl old ↦ rw old
    | inr new ↦ rw new (overrides-insert_items r.id items _)
  ]

  -- A stored receipt that is the same makes a later one be ignored.
  pub save-ignored :
      (r : Receipt N) (items : List (ReceiptItem N)) (db : Database N)
      → any (conflicts (normal_receipt r)) db.receipts ≡ true
      → save_transaction locale r items db ≡ db
  unfolding save_transaction insert_receipt
  save-ignored r items db h = rw h

  pub save-fresh_receipts :
      (r : Receipt N) (items : List (ReceiptItem N)) (db : Database N)
      → any (conflicts (normal_receipt r)) db.receipts ≡ false
      → (save_transaction locale r items db).receipts
        ≡ db.receipts ++ record (normal_receipt r) { status = none } ∷ []
  unfolding save_transaction insert_receipt delete_receipt_items
  save-fresh_receipts r items db h = rw h (receipts-insert_items r.id items _)

  -- The rows that `saveReceipt` appends, from the next key on.
  abbrev pub rows_from : Text → ℕ → List (ReceiptItem N) → List (ItemRow N)
  rows_from id k [] = []
  rows_from id k (item ∷ items) =
      record { key = k; item = stored_item locale id item } ∷ rows_from id (k + 1) items

  items-insert_items :
      (id : Text) (items : List (ReceiptItem N)) (db : Database N)
      → (insert_items locale id items db).items ≡ db.items ++ rows_from id db.next_key items
  unfolding insert_items insert_receipt_item
  items-insert_items id [] db = sym (append-nil db.items)
  items-insert_items id (item ∷ items) db =
      items-insert_items id items _ ∙ append_assoc db.items _ _

  pub save-fresh_items :
      (r : Receipt N) (items : List (ReceiptItem N)) (db : Database N)
      → any (conflicts (normal_receipt r)) db.receipts ≡ false
      → (save_transaction locale r items db).items
        ≡ select (λ row. not (text_eq row.item.receipt_id r.id)) db.items
          ++ rows_from r.id db.next_key items
  unfolding save_transaction insert_receipt delete_receipt_items
  save-fresh_items r items db h = rw h (items-insert_items r.id items _)

  pub select_rows-own :
      (id : Text) (k : ℕ) (items : List (ReceiptItem N))
      → select (λ (row : ItemRow N). text_eq row.item.receipt_id id) (rows_from id k items)
        ≡ rows_from id k items
  select_rows-own id k [] = refl
  select_rows-own id k (item ∷ items) = rw (text_eq_refl id) (
      ap (λ rows. record { key = k; item = stored_item locale id item } ∷ rows)
        (select_rows-own id (k + 1) items))

  pub select_rows-other :
      (id j : Text) (k : ℕ) (items : List (ReceiptItem N))
      → text_eq id j ≡ false
      → select (λ (row : ItemRow N). text_eq row.item.receipt_id j) (rows_from id k items) ≡ []
  select_rows-other id j k [] h = refl
  select_rows-other id j k (item ∷ items) h = rw h (select_rows-other id j (k + 1) items h)

  pub select_rows-dropped :
      (id : Text) (k : ℕ) (items : List (ReceiptItem N))
      → select (λ (row : ItemRow N). not (text_eq row.item.receipt_id id)) (rows_from id k items)
        ≡ []
  select_rows-dropped id k [] = refl
  select_rows-dropped id k (item ∷ items) =
      rw (text_eq_refl id) (select_rows-dropped id (k + 1) items)

  pub item_rows :
      (id : Text) (k : ℕ) (items : List (ReceiptItem N))
      → map (λ (row : ItemRow N). row.item) (rows_from id k items)
        ≡ map (stored_item locale id) items
  item_rows id k [] = refl
  item_rows id k (item ∷ items) =
      ap (λ rest. stored_item locale id item ∷ rest) (item_rows id (k + 1) items)

  module _ (r : Receipt N) (items : List (ReceiptItem N)) (db : Database N)
      (new : any (conflicts (normal_receipt r)) db.receipts ≡ false) where
    pub save-own_items :
        map
          (λ (row : ItemRow N). row.item)
          (select
            (λ row. text_eq row.item.receipt_id r.id)
            (save_transaction locale r items db).items)
        ≡ map (stored_item locale r.id) items
    save-own_items =
        rw
          (
            save-fresh_items r items db new,
            select-append,
            select-select_none (λ (row : ItemRow N). text_eq row.item.receipt_id r.id)
                (λ row. not (text_eq row.item.receipt_id r.id)) db.items (λ row h. rw h),
            select_rows-own,
          )
          (item_rows r.id db.next_key items)

    pub save-other_items :
        (other : Text)
        → text_eq r.id other ≡ false
        → select
            (λ (row : ItemRow N). text_eq row.item.receipt_id other)
            (save_transaction locale r items db).items
          ≡ select (λ (row : ItemRow N). text_eq row.item.receipt_id other) db.items
    save-other_items other ne =
        rw
          (
            save-fresh_items r items db new,
            select-append,
            select-select_same (λ (row : ItemRow N). text_eq row.item.receipt_id other)
                (λ row. not (text_eq row.item.receipt_id r.id)) db.items (λ row h. other_row row h),
            select_rows-other r.id other db.next_key items ne,
          )
          (append-nil _)
      where
        other_row :
            (row : ItemRow N)
            → text_eq row.item.receipt_id other ≡ true
            → not (text_eq row.item.receipt_id r.id) ≡ true
        other_row row h = ground (
          arith,
          text_eq_iff row.item.receipt_id other,
          text_eq_iff row.item.receipt_id r.id,
          text_eq_iff r.id other,
        )

    -- Deleting the items under the key again leaves those that other receipts had.
    pub save-dropped_items :
        select
          (λ (row : ItemRow N). not (text_eq row.item.receipt_id r.id))
          (save_transaction locale r items db).items
        ≡ select (λ (row : ItemRow N). not (text_eq row.item.receipt_id r.id)) db.items
    save-dropped_items =
        rw
          (
            save-fresh_items r items db new,
            select-append,
            select-select_same (λ (row : ItemRow N). not (text_eq row.item.receipt_id r.id))
                (λ row. not (text_eq row.item.receipt_id r.id)) db.items (λ row h. h),
            select_rows-dropped,
          )
          (append-nil _)
