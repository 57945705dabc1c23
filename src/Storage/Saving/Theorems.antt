-- ===== src/Storage/Saving/Theorems.antt =====
-- What a caller can rely on when it saves and deletes receipts.
use foodler.Common.{
  ◌≡◌, refl, ap, ◌∙◌, true, false, not, none, List, [], ◌∷◌, ◌++◌, arith, any, select, map, All,
  Bool-cases, inl, inr, select-append,
}
use mathlib.Core.List.{append-nil}
use foodler.Text.{Text, text_eq, Locale}
use foodler.Text.Laws.{text_eq_iff, text_eq_refl}
use foodler.Receipts.{Receipt, ReceiptItem}
use foodler.Storage.Database.{Database, ItemRow, conflicts}
use foodler.Keys.{has_key, any-append, select-All}
use foodler.Storage.Operations.{Local, stored_item, save_receipt, delete_receipt}
use foodler.Storage.Validity.{IsValid}
use foodler.Storage.Saving.{
  normal_receipt, SameReceipt, save-ignored, save-fresh_receipts, save-own_items, save-other_items,
  save-dropped_items, save-overrides,
}

module _ {N : Type 0} (locale : Locale) where
  -- Nothing that is stored has the key or the normalised fiscal code of the receipt.
  abbrev pub IsNew : Receipt N → Local N → Type 0
  IsNew r s = any (conflicts (normal_receipt locale r)) s.database.receipts ≡ false

  -- The stored items of a receipt.
  abbrev pub items_of : Text → Local N → List (ReceiptItem N)
  items_of id s =
      map (λ (row : ItemRow N). row.item)
        (select (λ row. text_eq row.item.receipt_id id) s.database.items)

  -- After a new receipt was saved, saving one with its key, or with the same normalised fiscal code,
  -- changes no table.
  pub save_receipt-duplicate :
      (r r' : Receipt N) (items items' : List (ReceiptItem N)) (s : Local N)
      → IsNew r s
      → SameReceipt locale r' r
      → (save_receipt locale r' items' (save_receipt locale r items s)).database
        ≡ (save_receipt locale r items s).database
  unfolding save_receipt
  save_receipt-duplicate r r' items items' s new same = save-ignored locale r' items' _ (
      rw (save-fresh_receipts locale r items s.database new)
        (any-append _ s.database.receipts _ ∙ ground (arith, same)))

  -- Saving a receipt again, with whatever items, changes no table.
  pub save_receipt-again :
      (r : Receipt N) (items items' : List (ReceiptItem N)) (s : Local N)
      → (save_receipt locale r items' (save_receipt locale r items s)).database
        ≡ (save_receipt locale r items s).database
  unfolding save_receipt
  save_receipt-again r items items' s =
      elim (Bool-cases (any (conflicts (normal_receipt locale r)) s.database.receipts)) [
        | inl old ↦
            save-ignored locale r items' _ (rw (save-ignored locale r items s.database old) old)
        | inr new ↦
            save_receipt-duplicate r r items items' s new (ground (arith, text_eq_refl r.id))
      ]

  -- A new receipt is appended, and its stored items are the given ones in order, under its key and
  -- with normalised categories; no other receipt's items change.
  pub save_receipt-stores :
      (r : Receipt N) (items : List (ReceiptItem N)) (s : Local N) (other : Text)
      → IsNew r s
      → text_eq r.id other ≡ false
      → ((save_receipt locale r items s).database.receipts
          ≡ s.database.receipts ++ record (normal_receipt locale r) { status = none } ∷ [])
        × (items_of r.id (save_receipt locale r items s) ≡ map (stored_item locale r.id) items)
        × (items_of other (save_receipt locale r items s) ≡ items_of other s)
  unfolding save_receipt
  save_receipt-stores r items s other new ne = (
    save-fresh_receipts locale r items s.database new,
    save-own_items locale r items s.database new,
    ap (map (λ (row : ItemRow N). row.item))
        (save-other_items locale r items s.database new other ne),
  )

  new_receipt-no_key :
      (r : Receipt N) (rs : List (Receipt N))
      → any (conflicts (normal_receipt locale r)) rs ≡ false
      → All (λ s. not (text_eq s.id r.id) ≡ true) rs
  new_receipt-no_key r [] h = tt
  new_receipt-no_key r (s ∷ rs) h = let rest = new_receipt-no_key r rs in ground arith

  any-no_key :
      (k : Text) (rs : List (Receipt N))
      → All (λ s. not (text_eq s.id k) ≡ true) rs
      → any (has_key (λ (s : Receipt N). s.id) k) rs ≡ false
  any-no_key k [] h = refl
  any-no_key k (s ∷ rs) (p, h) = ground (arith, any-no_key k rs h)

  keys_differ :
      (k j : Text) (rs : List (Receipt N))
      → any (has_key (λ (s : Receipt N). s.id) k) rs ≡ true
      → any (has_key (λ (s : Receipt N). s.id) j) rs ≡ false
      → not (text_eq k j) ≡ true
  keys_differ k j rs p q = elim (Bool-cases (text_eq k j)) [
    | inl e ↦ absurd (cc (rw ((text_eq_iff k j).0 e) at p))
    | inr e ↦ rw e
  ]

  new_receipt-no_items :
      (r : Receipt N) (db : Database N) (rows : List (ItemRow N))
      → any (conflicts (normal_receipt locale r)) db.receipts ≡ false
      → All
          (λ (row : ItemRow N). any (has_key (λ s. s.id) row.item.receipt_id) db.receipts ≡ true)
          rows
      → All (λ (row : ItemRow N). not (text_eq row.item.receipt_id r.id) ≡ true) rows
  new_receipt-no_items r db [] new h = tt
  new_receipt-no_items r db (row ∷ rows) new (p, h) = (
    keys_differ row.item.receipt_id r.id db.receipts p
        (any-no_key r.id db.receipts (new_receipt-no_key r db.receipts new)),
    new_receipt-no_items r db rows new h,
  )

  -- In valid tables, saving a new receipt and deleting it brings back the receipts, the items and
  -- the overrides.
  pub delete-save_receipt :
      (r : Receipt N) (items : List (ReceiptItem N)) (s : Local N)
      → IsValid s.database
      → IsNew r s
      → ((delete_receipt r.id (save_receipt locale r items s)).database.receipts
          ≡ s.database.receipts)
        × ((delete_receipt r.id (save_receipt locale r items s)).database.items ≡ s.database.items)
        × ((delete_receipt r.id (save_receipt locale r items s)).database.overrides
            ≡ s.database.overrides)
  unfolding save_receipt delete_receipt
  delete-save_receipt r items s v new = (
    rw (save-fresh_receipts locale r items s.database new, select-append, text_eq_refl r.id)
        (append-nil _
          ∙ select-All _ s.database.receipts (new_receipt-no_key r s.database.receipts new)),
    save-dropped_items locale r items s.database new
        ∙ select-All _ s.database.items
            (new_receipt-no_items r s.database s.database.items new v.item_receipts),
    save-overrides locale r items s.database,
  )
