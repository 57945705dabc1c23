-- ===== src/Storage/Validity/Statements.antt =====
-- The valid tables, and that each statement keeps them valid.
use foodler.Common.{
  ◌<◌, ◌≡◌, refl, ◌∙◌, Bool, true, false, not, List, [], ◌∷◌, ◌++◌, arith, any, select, All,
  All-select, Bool-cases, inl, inr, ◌==◌,
}
use foodler.Text.{Text, text_eq}
use foodler.Text.Laws.{text_eq_refl}
use foodler.Receipts.{Receipt, ReceiptItem}
use foodler.Storage.Database.{
  Database, ItemRow, empty_database, conflicts, insert_receipt, delete_receipt_items,
  insert_receipt_item,
}
use foodler.Keys.{has_key, HasDistinctKeys, HasDistinctKeys-concat, any-append, All-map_to}

module _ {N : Type 0} where
  -- AUTOINCREMENT gives growing keys.
  abbrev pub IsIncreasing : List (ItemRow N) → Type 0
  IsIncreasing [] = Unit
  IsIncreasing (row ∷ rows) = All (λ other. row.key < other.key) rows × IsIncreasing rows

  -- Receipt `id` is stored.
  abbrev pub HasReceipt : Text → Database N → Type 0
  HasReceipt id db = any (has_key (λ (r : Receipt N). r.id) id) db.receipts ≡ true

  pub record IsValid (db : Database N) : Type 0 where
    pub receipt_ids : HasDistinctKeys (λ (r : Receipt N). r.id) db.receipts
    pub receipt_codes : HasDistinctKeys (λ (r : Receipt N). r.qrraw) db.receipts
    pub item_receipts : All (λ (row : ItemRow N). HasReceipt row.item.receipt_id db) db.items
    pub item_keys : IsIncreasing db.items
    pub next_key : All (λ (row : ItemRow N). row.key < db.next_key) db.items
    pub override_keys : HasDistinctKeys (λ (o : Text × Text). o.0) db.overrides

  pub empty-IsValid : IsValid empty_database
  empty-IsValid = record {
    receipt_ids = tt;
    receipt_codes = tt;
    item_receipts = tt;
    item_keys = tt;
    next_key = tt;
    override_keys = tt;
  }

  no_conflict :
      (r : Receipt N) (rs : List (Receipt N))
      → any (conflicts r) rs ≡ false
      → (any (has_key (λ (s : Receipt N). s.id) r.id) rs ≡ false)
        × (any (has_key (λ (s : Receipt N). s.qrraw) r.qrraw) rs ≡ false)
  no_conflict r [] h = (refl, refl)
  no_conflict r (s ∷ rs) h = ground (arith, no_conflict r rs)

  HasReceipt-concat :
      (id : Text) (rs : List (Receipt N)) (r : Receipt N)
      → any (has_key (λ (s : Receipt N). s.id) id) rs ≡ true
      → any (has_key (λ (s : Receipt N). s.id) id) (rs ++ r ∷ []) ≡ true
  HasReceipt-concat id rs r h = any-append _ rs (r ∷ []) ∙ rw h

  module _ (r : Receipt N) (db : Database N) where
    pub insert_receipt-IsValid : IsValid db → IsValid (insert_receipt r db).0
    unfolding insert_receipt
    insert_receipt-IsValid v = elim (Bool-cases (any (conflicts r) db.receipts)) [
      | inl clash ↦ rw clash v
      | inr fresh ↦
          let (ids, qrs) = no_conflict r db.receipts fresh in
          rw fresh (record {
            receipt_ids = HasDistinctKeys-concat _ db.receipts _ v.receipt_ids ids;
            receipt_codes = HasDistinctKeys-concat _ db.receipts _ v.receipt_codes qrs;
            item_receipts =
                All-map_to db.items (λ row. HasReceipt-concat row.item.receipt_id db.receipts _)
                  v.item_receipts;
            item_keys = v.item_keys;
            next_key = v.next_key;
            override_keys = v.override_keys;
          })
    ]

    pub insert_receipt-HasReceipt :
        ((insert_receipt r db).1 == 0) ≡ false → HasReceipt r.id (insert_receipt r db).0
    unfolding insert_receipt
    insert_receipt-HasReceipt h = elim (Bool-cases (any (conflicts r) db.receipts)) [
      | inl clash ↦ absurd (cc (rw (clash, insert_receipt) at h))
      | inr fresh ↦ rw fresh (any-append _ db.receipts _ ∙ ground (arith, text_eq_refl r.id))
    ]

  IsIncreasing-select :
      (keep : ItemRow N → Bool) (rows : List (ItemRow N))
      → IsIncreasing rows
      → IsIncreasing (select keep rows)
  IsIncreasing-select keep [] h = tt
  IsIncreasing-select keep (row ∷ rows) (p, h) =
      let ih = IsIncreasing-select keep rows h in
      let kept = All-select (λ other. row.key < other.key) keep rows p in ground arith

  pub delete_receipt_items-IsValid :
      (id : Text) (db : Database N) → IsValid db → IsValid (delete_receipt_items id db)
  unfolding delete_receipt_items
  delete_receipt_items-IsValid id db v = record {
    receipt_ids = v.receipt_ids;
    receipt_codes = v.receipt_codes;
    item_receipts = All-select _ _ db.items v.item_receipts;
    item_keys = IsIncreasing-select _ db.items v.item_keys;
    next_key = All-select _ _ db.items v.next_key;
    override_keys = v.override_keys;
  }

  pub delete_items-HasReceipt :
      (id k : Text) (db : Database N) → HasReceipt k db → HasReceipt k (delete_receipt_items id db)
  unfolding delete_receipt_items
  delete_items-HasReceipt id k db h = h

  pub insert_item-HasReceipt :
      (k : Text) (item : ReceiptItem N) (db : Database N)
      → HasReceipt k db
      → HasReceipt k (insert_receipt_item item db)
  unfolding insert_receipt_item
  insert_item-HasReceipt k item db h = h

  -- After its items are deleted a receipt has none.
  pub delete_items-none :
      (id : Text) (db : Database N)
      → All
          (λ (row : ItemRow N). text_eq row.item.receipt_id id ≡ false)
          (delete_receipt_items id db).items
  unfolding delete_receipt_items
  delete_items-none id db = go db.items
    where
      go :
          (rows : List (ItemRow N))
          → All
              (λ (row : ItemRow N). text_eq row.item.receipt_id id ≡ false)
              (select (λ row. not (text_eq row.item.receipt_id id)) rows)
      go [] = tt
      go (row ∷ rows) = let rest = go rows in ground arith
