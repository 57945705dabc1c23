-- ===== src/Storage/Validity/Updates.antt =====
-- The statements that insert an item, delete a receipt, update items or change an override keep the
-- tables valid.
use foodler.Common.{
  ℕ, ◌+◌, ◌<◌, ◌≡◌, refl, ◌∙◌, Bool, true, false, not, List, [], ◌∷◌, ◌++◌, arith, any, map, All,
  All-append, Bool-cases, inl, inr,
}
use foodler.Text.{Text, text_eq}
use foodler.Text.Laws.{text_eq_iff}
use foodler.Receipts.{Numbers, Receipt, ReceiptItem}
use foodler.Storage.Database.{
  Database, ItemRow, insert_receipt_item, delete_receipts, update_where,
  update_receipt_item_category, upsert, upsert_receipt_category_override,
  delete_receipt_category_override, update_receipt_item_server_category,
}
use foodler.Keys.{
  HasDistinctKeys, HasDistinctKeys-select, any-select_kept, All-map_to, text_eq_comm,
}
use foodler.Storage.Validity.Statements.{IsIncreasing, HasReceipt, IsValid}

module _ {N : Type 0} where
  IsIncreasing-concat :
      (rows : List (ItemRow N)) (row : ItemRow N)
      → IsIncreasing rows
      → All (λ (other : ItemRow N). other.key < row.key) rows
      → IsIncreasing (rows ++ row ∷ [])
  IsIncreasing-concat [] row h b = (tt, tt)
  IsIncreasing-concat (r ∷ rows) row (p, h) (q, b) = (
    All-append (λ (other : ItemRow N). r.key < other.key) rows (row ∷ []) p (q, tt),
    IsIncreasing-concat rows row h b,
  )

  pub insert_receipt_item-IsValid :
      (item : ReceiptItem N) (db : Database N)
      → HasReceipt item.receipt_id db
      → IsValid db
      → IsValid (insert_receipt_item item db)
  unfolding insert_receipt_item
  insert_receipt_item-IsValid item db r v =
      let row : ItemRow N = record { key = db.next_key; item = item } in
      record {
        receipt_ids = v.receipt_ids;
        receipt_codes = v.receipt_codes;
        item_receipts = All-append _ db.items (row ∷ []) v.item_receipts (r, tt);
        item_keys = IsIncreasing-concat db.items row v.item_keys v.next_key;
        next_key =
            All-append (λ (other : ItemRow N). other.key < db.next_key + 1) db.items (row ∷ [])
              (All-map_to db.items (λ other h. omega arith) v.next_key) (omega arith, tt);
        override_keys = v.override_keys;
      }

  other_receipt :
      (id k : Text) (r : Receipt N)
      → text_eq k id ≡ false
      → text_eq r.id k ≡ true
      → not (text_eq r.id id) ≡ true
  other_receipt id k r n e =
      ground (arith, text_eq_iff k id, text_eq_iff r.id k, text_eq_iff r.id id)

  keep_receipts :
      (id : Text) (db : Database N) (rows : List (ItemRow N))
      → All (λ (row : ItemRow N). text_eq row.item.receipt_id id ≡ false) rows
      → All (λ (row : ItemRow N). HasReceipt row.item.receipt_id db) rows
      → All (λ (row : ItemRow N). HasReceipt row.item.receipt_id (delete_receipts id db)) rows
  unfolding delete_receipts
  keep_receipts id db [] n h = tt
  keep_receipts id db (row ∷ rows) (n, ns) (p, h) = (
    any-select_kept _ _ db.receipts (λ r. other_receipt id row.item.receipt_id r n) ∙ p,
    keep_receipts id db rows ns h,
  )

  pub delete_receipts-IsValid :
      (id : Text) (db : Database N)
      → All (λ (row : ItemRow N). text_eq row.item.receipt_id id ≡ false) db.items
      → IsValid db
      → IsValid (delete_receipts id db)
  delete_receipts-IsValid id db n v = record {
    receipt_ids = unfold delete_receipts in HasDistinctKeys-select _ _ db.receipts v.receipt_ids;
    receipt_codes =
        unfold delete_receipts in HasDistinctKeys-select _ _ db.receipts v.receipt_codes;
    item_receipts = unfold delete_receipts in keep_receipts id db db.items n v.item_receipts;
    item_keys = unfold delete_receipts in v.item_keys;
    next_key = unfold delete_receipts in v.next_key;
    override_keys = unfold delete_receipts in v.override_keys;
  }

  -- An update leaves the key and the receipt of a row alone.
  module _ (test : ReceiptItem N → Bool) (change : ReceiptItem N → ReceiptItem N)
      (same : (i : ReceiptItem N) → (change i).receipt_id ≡ i.receipt_id) where
    update-receipt_id :
        (row : ItemRow N) → (update_where test change row).item.receipt_id ≡ row.item.receipt_id
    update-receipt_id row = elim (Bool-cases (test row.item)) [
      | inl e ↦ rw e (same row.item)
      | inr e ↦ rw e
    ]

    update-key : (row : ItemRow N) → (update_where test change row).key ≡ row.key
    update-key row = ground arith

    update-HasReceipt :
        (db : Database N) (rows : List (ItemRow N))
        → All (λ (row : ItemRow N). HasReceipt row.item.receipt_id db) rows
        → All
            (λ (row : ItemRow N). HasReceipt row.item.receipt_id db)
            (map (update_where test change) rows)
    update-HasReceipt db [] h = tt
    update-HasReceipt db (row ∷ rows) (p, h) =
        (rw (update-receipt_id row) p, update-HasReceipt db rows h)

    update-above :
        (k : ℕ) (rows : List (ItemRow N))
        → All (λ (row : ItemRow N). k < row.key) rows
        → All (λ (row : ItemRow N). k < row.key) (map (update_where test change) rows)
    update-above k [] h = tt
    update-above k (row ∷ rows) (p, h) = (rw (update-key row) p, update-above k rows h)

    update-below :
        (k : ℕ) (rows : List (ItemRow N))
        → All (λ (row : ItemRow N). row.key < k) rows
        → All (λ (row : ItemRow N). row.key < k) (map (update_where test change) rows)
    update-below k [] h = tt
    update-below k (row ∷ rows) (p, h) = (rw (update-key row) p, update-below k rows h)

    update-IsIncreasing :
        (rows : List (ItemRow N))
        → IsIncreasing rows
        → IsIncreasing (map (update_where test change) rows)
    update-IsIncreasing [] h = tt
    update-IsIncreasing (row ∷ rows) (p, h) =
        (rw (update-key row) (update-above row.key rows p), update-IsIncreasing rows h)

    update-IsValid :
        (db : Database N)
        → IsValid db
        → IsValid (record db { items = map (update_where test change) db.items })
    update-IsValid db v = record {
      receipt_ids = v.receipt_ids;
      receipt_codes = v.receipt_codes;
      item_receipts = update-HasReceipt db db.items v.item_receipts;
      item_keys = update-IsIncreasing db.items v.item_keys;
      next_key = update-below db.next_key db.items v.next_key;
      override_keys = v.override_keys;
    }

  pub update_category-IsValid :
      (new old : Text) (db : Database N)
      → IsValid db
      → IsValid (update_receipt_item_category new old db)
  unfolding update_receipt_item_category
  update_category-IsValid new old db = update-IsValid _ _ (λ i. refl) db

  pub update_server-IsValid :
      (num : Numbers N) (id : Text) (item : ReceiptItem N) (db : Database N)
      → IsValid db
      → IsValid (update_receipt_item_server_category num id item db)
  unfolding update_receipt_item_server_category
  update_server-IsValid num id item db = update-IsValid _ _ (λ i. refl) db

any-upsert :
    (k key category : Text) (os : List (Text × Text))
    → any (λ (o : Text × Text). text_eq o.0 k) os ≡ false
    → text_eq key k ≡ false
    → any (λ (o : Text × Text). text_eq o.0 k) (upsert key category os) ≡ false
unfolding upsert
any-upsert k key category [] h n = ground arith
any-upsert k key category ((j, c) ∷ os) h n =
    ground (arith, any-upsert k key category os, text_eq_iff j key)

pub HasDistinctKeys-upsert :
    (key category : Text) (os : List (Text × Text))
    → HasDistinctKeys (λ (o : Text × Text). o.0) os
    → HasDistinctKeys (λ (o : Text × Text). o.0) (upsert key category os)
unfolding upsert
HasDistinctKeys-upsert key category [] h = (refl, tt)
HasDistinctKeys-upsert key category ((j, c) ∷ os) (p, h) = elim (Bool-cases (text_eq j key)) [
  | inl e ↦ rw e (p, h)
  | inr e ↦ rw e (
    any-upsert j key category os p (text_eq_comm key j ∙ e),
    HasDistinctKeys-upsert key category os h,
  )
]

module _ {N : Type 0} where
  pub upsert-IsValid :
      (key category : Text) (db : Database N)
      → IsValid db
      → IsValid (upsert_receipt_category_override key category db)
  unfolding upsert_receipt_category_override
  upsert-IsValid key category db v = record {
    receipt_ids = v.receipt_ids;
    receipt_codes = v.receipt_codes;
    item_receipts = v.item_receipts;
    item_keys = v.item_keys;
    next_key = v.next_key;
    override_keys = HasDistinctKeys-upsert key category db.overrides v.override_keys;
  }

  pub delete_override-IsValid :
      (key : Text) (db : Database N)
      → IsValid db
      → IsValid (delete_receipt_category_override key db)
  unfolding delete_receipt_category_override
  delete_override-IsValid key db v = record {
    receipt_ids = v.receipt_ids;
    receipt_codes = v.receipt_codes;
    item_receipts = v.item_receipts;
    item_keys = v.item_keys;
    next_key = v.next_key;
    override_keys = HasDistinctKeys-select _ _ db.overrides v.override_keys;
  }
